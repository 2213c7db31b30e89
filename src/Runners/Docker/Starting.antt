-- ===== src/Runners/Docker/Starting.antt =====
-- runner/docker/docker.go, `Start`: what a successful start has done, in order.
use yurt.Prelude.{String, ◌≡◌, List, [], ◌∷◌, ◌++◌, ◌∙◌, sym, ap, Dict, arith}
use mathlib.Core.List.{append_assoc}
use yurt.Effects.{ok}
use yurt.Effects.Calls.{◌>>=◌, bind-eq-ok, call, lift}
use yurt.Runner.{join}
use yurt.Commands.Command.{Command, Encoders, with_config, files}
use yurt.Runners.Files.{
  Event, Answers, mkdir_all, remove_container, list_containers, start_container, write_configs,
}
use yurt.Runners.Exec.Starting.{written, write_configs_ok}
use yurt.Runners.Docker.{
  DockerAnswers, DockerRunner, DockerHarness, start, remove_all, make_all, launch, node_copies,
  run_options,
}

-- The events of the two loops, the newest first.
abbrev pub removed : List String → List Event
removed [] = []
removed (id ∷ ids) = removed ids ++ (remove_container id ∷ [])

abbrev pub made_all : Dict String → List Event
made_all [] = []
made_all ((from, to) ∷ copies) = made_all copies ++ (mkdir_all from ∷ [])

remove_all_ok :
    (o : DockerAnswers) (ids : List String) (h h' : List Event)
    → remove_all o ids h ≡ (ok tt, h')
    → h' ≡ removed ids ++ h
unfolding remove_all
remove_all_ok o [] h h' e = ground arith
remove_all_ok o (id ∷ ids) h h' e =
    let (_, h1, one, rest) =
      bind-eq-ok (call (remove_container id) (o.remove_container id)) (λ _. remove_all o ids) h e in
    let here : h1 ≡ remove_container id ∷ h = ground arith in
    remove_all_ok o ids h1 h' rest
    ∙ ap (λ (l : List Event). removed ids ++ l) here
    ∙ sym (append_assoc (removed ids) (remove_container id ∷ []) h)

make_all_ok :
    (o : Answers) (copies : Dict String) (h h' : List Event)
    → make_all o copies h ≡ (ok tt, h')
    → h' ≡ made_all copies ++ h
unfolding make_all
make_all_ok o [] h h' e = ground arith
make_all_ok o ((from, to) ∷ copies) h h' e =
    let (_, h1, one, rest) =
      bind-eq-ok (call (mkdir_all from) (o.mkdir_all from)) (λ _. make_all o copies) h e in
    let here : h1 ≡ mkdir_all from ∷ h = ground arith in
    make_all_ok o copies h1 h' rest
    ∙ ap (λ (l : List Event). made_all copies ++ l) here
    ∙ sym (append_assoc (made_all copies) (mkdir_all from ∷ []) h)

launch_ok :
    (o : DockerAnswers) (d : DockerRunner) (c : Command) (h h' : List Event) (x : DockerHarness)
    → launch o d c h ≡ (ok x, h')
    → (x.config ≡ d.config) × (h' ≡ start_container (run_options d c) ∷ h)
unfolding launch
launch_ok o d c h h' x e = ground arith

-- A start that succeeds has removed the containers that are listed under the node's name, made the
-- directories of the node, written every file of the command, and then started the container, in
-- that order. The harness holds the configuration that the runner was given.
pub docker_start_ok :
    (o : DockerAnswers) (encoders : Encoders) (d : DockerRunner) (h h' : List Event)
    (ids : List String) (fs : Dict String) (x : DockerHarness)
    → o.list_containers d.config.node_name h ≡ ok ids
    → files encoders (with_config d.command d.config) ≡ ok fs
    → start o encoders d h ≡ (ok x, h')
    → (x.config ≡ d.config)
      × (h'
          ≡ start_container (run_options d (with_config d.command d.config))
            ∷ (written (join d.node_dir "config") fs
                ++ (made_all (node_copies d)
                    ++ (removed ids ++ (list_containers d.config.node_name ∷ h)))))
unfolding start
docker_start_ok o encoders d h h' ids fs x listed f e =
    let c = with_config d.command d.config in
    let dir = join d.node_dir "config" in
    let name = d.config.node_name in
    let k3 = λ (u : Unit {0}). launch o d c in
    let k2 = λ (l : Dict String). write_configs o.files dir l >>= k3 in
    let k1 = λ (u : Unit {0}). lift (files encoders c) >>= k2 in
    let k0 = λ (u : Unit {0}). make_all o.files (node_copies d) >>= k1 in
    let k = λ (l : List String). remove_all o l >>= k0 in
    let (ids', h0, e0, r0) =
      bind-eq-ok (call (list_containers name) (o.list_containers name)) k h e in
    let (_, h1, e1, r1) = bind-eq-ok (remove_all o ids') k0 h0 r0 in
    let (_, h2, e2, r2) = bind-eq-ok (make_all o.files (node_copies d)) k1 h1 r1 in
    let (fs', h3, e3, r3) = bind-eq-ok (lift (files encoders c)) k2 h2 r2 in
    let (_, h4, e4, r4) = bind-eq-ok (write_configs o.files dir fs') k3 h3 r3 in
    let last = launch_ok o d c h4 h' x r4 in
    (
      last.0,
      cc (
        last.1,
        write_configs_ok o.files dir fs' h3 h4 e4,
        f,
        e3,
        make_all_ok o.files (node_copies d) h1 h2 e2,
        remove_all_ok o ids' h0 h1 e1,
        listed,
        e0,
      ),
    )
