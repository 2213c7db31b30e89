-- ===== src/Runners/Exec/Starting.antt =====
-- runner/exec/exec.go, `Start`: what a successful start has done, in order.
use yurt.Prelude.{
  String, ◌≡◌, List, [], ◌∷◌, ◌++◌, ◌∙◌, sym, ap, Dict, has_suffix, str_eq, arith, if◌then◌else◌,
  ◌∙◌, ap, sym,
}
use mathlib.Core.List.{append_assoc}
use yurt.Effects.{ok}
use yurt.Effects.Calls.{◌>>=◌, bind-eq-ok, call, lift}
use yurt.Runner.{Config, join}
use yurt.Commands.Command.{
  Command, Encoders, with_config, config, files, args, env, config-with_config,
}
use yurt.Runners.Files.{
  Event, Answers, mkdir_all, parse_pem, write_file, create_file, start_process, make_dirs,
  write_configs, write_config,
}
use yurt.Runners.Exec.{ExecRunner, ExecHarness, start, launch, nothing, open_log}

-- The events of the files, the newest first.
abbrev pub written_file : String → String → String → List Event
written_file dir name contents =
    write_file (join dir name) contents
    ∷ (if has_suffix name ".pem"
        then parse_pem contents ∷ mkdir_all dir ∷ []
        else mkdir_all dir ∷ [])

abbrev pub written : String → Dict String → List Event
written dir [] = []
written dir ((name, contents) ∷ fs) = written dir fs ++ written_file dir name contents

abbrev pub made : List String → List Event
made [] = []
made (dir ∷ dirs) = made dirs ++ (if str_eq dir "" then [] else mkdir_all dir ∷ [])

write_config_ok :
    (o : Answers) (dir name contents : String) (h h' : List Event)
    → write_config o dir name contents h ≡ (ok tt, h')
    → h' ≡ written_file dir name contents ++ h
unfolding write_config
write_config_ok o dir name contents h h' e = ground arith

pub write_configs_ok :
    (o : Answers) (dir : String) (fs : Dict String) (h h' : List Event)
    → write_configs o dir fs h ≡ (ok tt, h')
    → h' ≡ written dir fs ++ h
unfolding write_configs
write_configs_ok o dir [] h h' e = ground arith
write_configs_ok o dir ((name, contents) ∷ fs) h h' e =
    let (_, h1, one, rest) =
      bind-eq-ok (write_config o dir name contents) (λ _. write_configs o dir fs) h e in
    write_configs_ok o dir fs h1 h' rest
    ∙ ap (λ (l : List Event). written dir fs ++ l) (write_config_ok o dir name contents h h1 one)
    ∙ sym (append_assoc (written dir fs) (written_file dir name contents) h)

make_dirs_ok :
    (o : Answers) (dirs : List String) (h h' : List Event)
    → make_dirs o dirs h ≡ (ok tt, h')
    → h' ≡ made dirs ++ h
unfolding make_dirs
make_dirs_ok o [] h h' e = ground arith
make_dirs_ok o (dir ∷ dirs) h h' e =
    let one = if str_eq dir "" then nothing else call (mkdir_all dir) (o.mkdir_all dir) in
    let (_, h1, first, rest) = bind-eq-ok one (λ _. make_dirs o dirs) h e in
    let here : h1 ≡ (if str_eq dir "" then [] else mkdir_all dir ∷ []) ++ h = ground arith in
    make_dirs_ok o dirs h1 h' rest
    ∙ ap (λ (l : List Event). made dirs ++ l) here
    ∙ sym (append_assoc (made dirs) (if str_eq dir "" then [] else mkdir_all dir ∷ []) h)

open_log_ok :
    (o : Answers) (log_name : String) (h h' : List Event)
    → open_log o log_name h ≡ (ok tt, h')
    → h' ≡ (if str_eq log_name "" then [] else create_file log_name ∷ []) ++ h
unfolding open_log
open_log_ok o log_name h h' e = ground arith

launch_ok :
    (o : Answers) (bin_path : String) (c : Command) (cfg : Config) (h h' : List Event)
    (x : ExecHarness)
    → launch o bin_path c cfg h ≡ (ok x, h')
    → (x.config ≡ config c) × (h' ≡ start_process bin_path (args c) (env c) cfg.config_dir ∷ h)
unfolding launch
launch_ok o bin_path c cfg h h' x e = ground arith

-- The harness of a start that succeeds holds the configuration that the runner was given.
pub start-config :
    (o : Answers) (encoders : Encoders) (r : ExecRunner) (log_name : String) (h h' : List Event)
    (x : ExecHarness)
    → start o encoders r log_name h ≡ (ok x, h')
    → x.config ≡ r.config
unfolding start
start-config o encoders r log_name h h' x e =
    let c = with_config r.command r.config in
    let k3 = λ (u : Unit {0}). launch o r.bin_path c r.config in
    let k2 = λ (u : Unit {0}). open_log o log_name >>= k3 in
    let k1 = λ (l : Dict String). write_configs o r.config.config_dir l >>= k2 in
    let k0 = λ (u : Unit {0}). lift (files encoders c) >>= k1 in
    let dirs = r.config.data_dir ∷ r.config.log_dir ∷ [] in
    let (_, h1, e1, r1) = bind-eq-ok (make_dirs o dirs) k0 h e in
    let (fs, h2, e2, r2) = bind-eq-ok (lift (files encoders c)) k1 h1 r1 in
    let (_, h3, e3, r3) = bind-eq-ok (write_configs o r.config.config_dir fs) k2 h2 r2 in
    let (_, h4, e4, r4) = bind-eq-ok (open_log o log_name) k3 h3 r3 in
    (launch_ok o r.bin_path c r.config h4 h' x r4).0 ∙ config-with_config r.command r.config

-- A start that succeeds has made the directories, written every file of the command, opened the log
-- if one is named, and then started the process with the arguments of the command, in that order.
-- The harness holds the configuration that the runner was given.
pub start_ok :
    (o : Answers) (encoders : Encoders) (r : ExecRunner) (log_name : String) (h h' : List Event)
    (fs : Dict String) (x : ExecHarness)
    → files encoders (with_config r.command r.config) ≡ ok fs
    → start o encoders r log_name h ≡ (ok x, h')
    → (x.config ≡ r.config)
      × (h'
          ≡ start_process r.bin_path
              (args (with_config r.command r.config))
              (env (with_config r.command r.config))
              r.config.config_dir
            ∷ ((if str_eq log_name "" then [] else create_file log_name ∷ [])
                ++ (written r.config.config_dir fs
                    ++ (made (r.config.data_dir ∷ r.config.log_dir ∷ []) ++ h))))
unfolding start
start_ok o encoders r log_name h h' fs x f e =
    let c = with_config r.command r.config in
    let dir = r.config.config_dir in
    let k3 = λ (u : Unit {0}). launch o r.bin_path c r.config in
    let k2 = λ (u : Unit {0}). open_log o log_name >>= k3 in
    let k1 = λ (l : Dict String). write_configs o dir l >>= k2 in
    let k0 = λ (u : Unit {0}). lift (files encoders c) >>= k1 in
    let dirs = r.config.data_dir ∷ r.config.log_dir ∷ [] in
    let (_, h1, e1, r1) = bind-eq-ok (make_dirs o dirs) k0 h e in
    let (fs', h2, e2, r2) = bind-eq-ok (lift (files encoders c)) k1 h1 r1 in
    let (_, h3, e3, r3) = bind-eq-ok (write_configs o dir fs') k2 h2 r2 in
    let (_, h4, e4, r4) = bind-eq-ok (open_log o log_name) k3 h3 r3 in
    let last = launch_ok o r.bin_path c r.config h4 h' x r4 in
    (
      last.0 ∙ config-with_config r.command r.config,
      cc (
        last.1,
        open_log_ok o log_name h3 h4 e4,
        write_configs_ok o dir fs' h2 h3 e3,
        f,
        e2,
        make_dirs_ok o dirs h h1 e1,
      ),
    )
