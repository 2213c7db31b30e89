-- ===== src/Clusters/YurtRun/Cleaning.antt =====
-- cluster/dockeryurt.go: what `Start` launches, and what `Stop` cleans up after it.
use yurt.Prelude.{
  ◌≡◌, refl, ◌∙◌, ap, sym, ℕ, ◌+◌, String, ◌<>◌, List, [], ◌∷◌, ◌++◌, map, Dict, arith, onto,
  onto-append, insert,
}
use mathlib.Core.List.{map-append}
use yurt.Effects.{Error, Result, ok, err}
use yurt.Effects.Calls.{call}
use yurt.Effects.Methods.{calling, reading, ◌>>=◌, ◌>>◌, bind-keeps}
use yurt.Docker.Container.{ContainerJson}
use yurt.Runner.{join}
use yurt.Clusters.YurtRun.{
  YurtRunCluster, Event, World, Cluster, start_container, cleanup_container, make_dir, add_binaries,
  node_options, node_name, launch, start_node, start_nodes, start, stop_rounds, stop, get_os_arch,
}

abbrev pub State : Type 0
State = YurtRunCluster × List Event

abbrev pub new_id : Result ContainerJson → List String → List String
new_id (ok k) ids = k.id ∷ ids
new_id (err e) ids = ids

-- The containers that `docker.Start` has started, the newest first.
abbrev pub launched : World → List Event → List String
launched w [] = []
launched w (start_container opts ∷ h) = let rest = launched w h in new_id (w.start opts h) rest
launched w (_ ∷ h) = launched w h

-- The containers that were cleaned up, the newest first.
abbrev pub cleaned : List Event → List String
cleaned [] = []
cleaned (cleanup_container id ∷ h) = id ∷ cleaned h
cleaned (_ ∷ h) = cleaned h

abbrev pub ids : YurtRunCluster → List String
ids c = map (λ (k : ContainerJson). k.id) c.containers

-- The cluster lists what was started since `h`, and nothing was cleaned up.
abbrev pub Listed : World → List Event → State → Type 0
Listed w h s = (launched w s.1 ≡ onto (ids s.0) (launched w h)) × (cleaned s.1 ≡ cleaned h)

add_binaries-Quiet :
    (w : World) (names : List String) (copies : Dict String) (h : List Event)
    → (launched w (add_binaries w names copies h).1 ≡ launched w h)
      × (cleaned (add_binaries w names copies h).1 ≡ cleaned h)
unfolding add_binaries
add_binaries-Quiet w [] copies h = (refl, refl)
add_binaries-Quiet w (name ∷ names) copies h =
    by_answer (w.get_os_arch name h) refl (λ c t. add_binaries-Quiet w names c t)
  where
    by_answer :
        (r : Result String)
        → w.get_os_arch name h ≡ r
        → ((c : Dict String) (t : List Event)
            → (launched w (add_binaries w names c t).1 ≡ launched w t)
              × (cleaned (add_binaries w names c t).1 ≡ cleaned t))
        → (launched w (add_binaries w (name ∷ names) copies h).1 ≡ launched w h)
          × (cleaned (add_binaries w (name ∷ names) copies h).1 ≡ cleaned h)
    by_answer (err e) p later = ground arith
    by_answer (ok bin) p later =
        ground (arith, later (insert bin ("/bin/" <> name) copies) (get_os_arch name ∷ h))

launch-Listed :
    (w : World) (node : ℕ) (ip : String) (copies : Dict String) (h : List Event) (s : State)
    → Listed w h s
    → Listed w h (launch w node ip copies s).1
unfolding launch
launch-Listed w node ip copies h s l =
    by_answer (w.start (node_options s.0 node ip copies) s.1) refl
  where
    by_answer :
        (r : Result ContainerJson)
        → w.start (node_options s.0 node ip copies) s.1 ≡ r
        → Listed w h (launch w node ip copies s).1
    by_answer (err e) p = ground (arith, l)
    by_answer (ok k) p = (
      ground (
        arith,
        l.0,
        map-append (λ (k : ContainerJson). k.id) s.0.containers (k ∷ []),
        onto-append (ids s.0) k.id (launched w h),
      ),
      ground (arith, l.1),
    )

start_node-Listed :
    (w : World) (node : ℕ) (ip : String) (h : List Event) (s : State)
    → Listed w h s
    → Listed w h (start_node w node ip s).1
unfolding start_node
start_node-Listed w node ip h =
    bind-keeps (Listed w h) (reading (λ (c : YurtRunCluster). c)) with_cluster (λ s l. l)
      (λ c.
        bind-keeps (Listed w h) (make c) (λ _. pack c) (λ s l. l)
          (λ _.
            bind-keeps (Listed w h) (binaries c) (launch w node ip) (λ s l. binaries-Listed c s l)
              (λ copies s l. launch-Listed w node ip copies h s l)))
  where
    dir : YurtRunCluster → String
    dir c = join c.work_dir (node_name node)

    make : YurtRunCluster → Cluster (Unit {0})
    make c = calling (call (make_dir (dir c)) (w.make_dir (dir c)))

    binaries : YurtRunCluster → Cluster (Dict String)
    binaries c =
        calling (add_binaries w ("yurt-run" ∷ "consul" ∷ "nomad" ∷ []) ((dir c, "/var/yurt") ∷ []))

    binaries-Listed : (c : YurtRunCluster) (s : State) → Listed w h s → Listed w h (binaries c s).1
    binaries-Listed c s l =
        let (new, old) =
          add_binaries-Quiet w ("yurt-run" ∷ "consul" ∷ "nomad" ∷ []) ((dir c, "/var/yurt") ∷ [])
            s.1 in
        (new ∙ l.0, old ∙ l.1)

    pack : YurtRunCluster → Cluster (Unit {0})
    pack c = binaries c >>= launch w node ip

    with_cluster : YurtRunCluster → Cluster (Unit {0})
    with_cluster c = make c >> pack c

start_nodes-Listed :
    (w : World) (i : ℕ) (ips : List String) (h : List Event) (s : State)
    → Listed w h s
    → Listed w h (start_nodes w i ips s).1
unfolding start_nodes
start_nodes-Listed w i [] h s l = l
start_nodes-Listed w i (ip ∷ ips) h s l =
    bind-keeps (Listed w h) (start_node w i ip) (λ _. start_nodes w (i + 1) ips)
      (start_node-Listed w i ip h) (λ _ t m. start_nodes-Listed w (i + 1) ips h t m) s l

stop_rounds-cleaned :
    (w : World) (containers : List ContainerJson) (errs : List Error) (h : List Event)
    → (cleaned (stop_rounds w containers errs h).1
        ≡ onto (map (λ (k : ContainerJson). k.id) containers) (cleaned h))
      × (launched w (stop_rounds w containers errs h).1 ≡ launched w h)
unfolding stop_rounds
stop_rounds-cleaned w [] errs h = (refl, refl)
stop_rounds-cleaned w (k ∷ containers) errs h =
    by_answer (w.cleanup k.id h) refl
      (λ x. stop_rounds-cleaned w containers x (cleanup_container k.id ∷ h))
  where
    by_answer :
        (r : Result (Unit {0}))
        → w.cleanup k.id h ≡ r
        → ((x : List Error)
            → (cleaned (stop_rounds w containers x (cleanup_container k.id ∷ h)).1
                ≡ onto (map (λ (k : ContainerJson). k.id) containers) (k.id ∷ cleaned h))
              × (launched w (stop_rounds w containers x (cleanup_container k.id ∷ h)).1
                  ≡ launched w h))
        → (cleaned (stop_rounds w (k ∷ containers) errs h).1
            ≡ onto (map (λ (k : ContainerJson). k.id) (k ∷ containers)) (cleaned h))
          × (launched w (stop_rounds w (k ∷ containers) errs h).1 ≡ launched w h)
    by_answer (ok x) p later = ground (arith, later errs)
    by_answer (err e) p later = ground (arith, later (errs ++ (e ∷ [])))

-- Whatever the outcome of `Start` of a new cluster, the cluster lists exactly the containers that
-- were started; and `Stop` after it cleans up each of them once, in order, also when a cleaning
-- fails.
pub start-stop :
    (w : World) (c : YurtRunCluster) (h : List Event)
    → c.containers ≡ []
    → (launched w (start w (c, h)).1.1 ≡ onto (ids (start w (c, h)).1.0) (launched w h))
      × (cleaned (stop w (start w (c, h)).1.0 (start w (c, h)).1.1).1
          ≡ onto (ids (start w (c, h)).1.0) (cleaned h))
unfolding start stop
start-stop w c h none_yet =
    let listed =
      start_nodes-Listed w 0 c.consul_server_ips h (c, h)
        (
          ap (λ (l : List ContainerJson). onto (map (λ (k : ContainerJson). k.id) l) (launched w h))
              (sym none_yet),
          refl,
        ) in
    let end = (start_nodes w 0 c.consul_server_ips (c, h)).1 in
    (listed.0, (stop_rounds-cleaned w end.0.containers [] end.1).0 ∙ ap (onto (ids end.0)) listed.1)
