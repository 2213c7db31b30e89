-- ===== src/Clusters/Nomad/Stopping.antt =====
-- cluster/cluster.go, `NewNomadCluster`: steps that know what is running, by what they leave when
-- they fail.
use yurt.Prelude.{
  ◌≡◌, refl, Bool, true, false, ◌||◌, ◌==◌, List, [], ◌∷◌, ◌++◌, Option, none, some, arith,
  if◌then◌else◌, ap, sym, ◌∙◌,
}
use yurt.Effects.{Error, Result, ok, err}
use yurt.Commands.Command.{Command}
use yurt.Clusters.{World, Event, Harness, cluster_tls, TlsConfigPem, Node, note}
use yurt.Clusters
use yurt.Clusters.Consul.Allocating.{started, stopped}
use yurt.Clusters.Nomad.{NomadCluster, or_stop, with_agent, stop_each, stop_all}
use yurt.Effects.Calls.{Exec, call, continue, ◌>>=◌}

abbrev pub listed : List Harness → Harness → Bool
listed [] s = false
listed (x ∷ l) s = let rest = listed l s in if x == s then true else rest

-- The newest event that is no stop.
abbrev pub last_call : List Event → Option Event
last_call [] = none
last_call (Clusters.stop s ∷ h) = last_call h
last_call (e ∷ h) = some e

abbrev pub is_nomad : Command → Bool
is_nomad (Command.nomad c) = true
is_nomad _ = false

-- The call is one whose failure stops the cluster.
abbrev pub stops : Option Event → Bool
stops (some (Clusters.endpoint s)) = true
stops (some (Clusters.nomad_healthy s p)) = true
stops (some (Clusters.run c n)) = is_nomad c
stops _ = false

pub listed-append :
    (l m : List Harness) (s : Harness) → listed (l ++ m) s ≡ (listed l s || listed m s)
listed-append [] m s = refl
listed-append (x ∷ l) m s = ground (arith, listed-append l m s)

pub stop_each_lem :
    (l : List Harness) (h : List Event) (s : Harness)
    → (listed (stopped (stop_each l h)) s ≡ (listed l s || listed (stopped h) s))
      × (started (stop_each l h) ≡ started h)
      × (last_call (stop_each l h) ≡ last_call h)
unfolding stop_each
stop_each_lem [] h s = (refl, refl, refl)
stop_each_lem (x ∷ l) h s = ground (arith, stop_each_lem l (Clusters.stop x ∷ h) s)

-- The cluster knows all that was started, and nothing was stopped.
abbrev pub Known : NomadCluster → List Event → Type 0
Known c h =
    ((s : Harness)
      → listed (started h) s ≡ true
      → (listed c.consul_agents s || listed c.servers s) ≡ true)
    × (stopped h ≡ [])

-- Everything that was started was stopped.
abbrev pub AllStopped : List Event → Type 0
AllStopped h = (s : Harness) → listed (started h) s ≡ true → listed (stopped h) s ≡ true

stop_all-AllStopped :
    (c : NomadCluster) (h : List Event)
    → Known c h
    → AllStopped (stop_all c h) × (last_call (stop_all c h) ≡ last_call h)
unfolding stop_all
stop_all-AllStopped c h k = (
  λ s p. ground (
    arith,
    k.0 s,
    stop_each_lem c.consul_agents (stop_each c.servers h) s,
    stop_each_lem c.servers h s,
  ),
  ground
      (arith, stop_each_lem c.consul_agents (stop_each c.servers h) 0, stop_each_lem c.servers h 0),
)

-- What a failure leaves.
abbrev pub Failed : List Event → Type 0
Failed h =
    ((stops (last_call h) ≡ true) → AllStopped h) × ((stops (last_call h) ≡ false) → stopped h ≡ [])

pub cluster_tls_lem :
    (w : World) (has_ca : Bool) (use_for : Clusters.Use) (h h' : List Event)
    (r : Result (Option TlsConfigPem))
    → cluster_tls w has_ca use_for h ≡ (r, h')
    → (started h' ≡ started h)
      × (stopped h' ≡ stopped h)
      × ((e : Error) → r ≡ err e → stops (last_call h') ≡ false)
unfolding cluster_tls
cluster_tls_lem w has_ca use_for h h' r p = (ground arith, ground arith, λ e q. ground arith)

stop_all-Failed :
    (c : NomadCluster) (h : List Event)
    → Known c h
    → stops (last_call h) ≡ true
    → Failed (stop_all c h)
stop_all-Failed c h k p =
    let (all, last) = stop_all-AllStopped c h k in (λ _. all, λ q. absurd (ground (arith, last)))

pub quiet-Failed : (h : List Event) → stopped h ≡ [] → stops (last_call h) ≡ false → Failed h
quiet-Failed h p q = (λ t. absurd (ground arith), λ _. p)

-- A history in which the same was started and stopped.
Known-same :
    (c : NomadCluster) (h h' : List Event)
    → Known c h
    → started h' ≡ started h
    → stopped h' ≡ stopped h
    → Known c h'
Known-same c h h' k p q =
    (λ s m. k.0 s (ap (λ (l : List Harness). listed l s) (sym p) ∙ m), q ∙ k.1)

pub Known-agent :
    (c : NomadCluster) (agent : Harness) (h : List Event)
    → Known c h
    → Known (with_agent c agent) (Clusters.watch agent ∷ h)
Known-agent c agent h k =
    (λ s p. ground (arith, k.0 s, listed-append c.consul_agents (agent ∷ []) s), k.1)

pub Known-server :
    (c : NomadCluster) (server : Harness) (h : List Event)
    → Known c h
    → Known (record c { servers = c.servers ++ (server ∷ []) }) (Clusters.watch server ∷ h)
Known-server c server h k =
    (λ s p. ground (arith, k.0 s, listed-append c.servers (server ∷ []) s), k.1)

-- `m`, begun where `P` holds, ends where `Q` holds of its result, or fails as described.
abbrev pub Post : {A : Type 0} → (A → List Event → Type 0) → Result A × List Event → Type 0
Post Q (ok a, h) = Q a h
Post Q (err e, h) = Failed h

abbrev pub Triple :
    {A : Type 0} → (List Event → Type 0) → Exec Event A → (A → List Event → Type 0) → Type 0
Triple P m Q = (h : List Event) → P h → Post Q (m h)

pub bind-Triple :
    {A : Type 0} (P : List Event → Type 0) (Q : A → List Event → Type 0) (m : Exec Event A)
    (f : A → Exec Event NomadCluster)
    → Triple P m Q
    → ((a : A) → Triple (Q a) (f a) Known)
    → Triple P (m >>= f) Known
bind-Triple {A} P Q m f p q h k = next (m h) (p h k)
  where
    next : (r : Result A × List Event) → Post Q r → Post Known (continue r.0 f r.1)
    next (err e, h1) k' = k'
    next (ok a, h1) k' = q a h1 k'

-- A call whose failure stops the cluster.
pub or_stop-Triple :
    {A : Type 0} (c : NomadCluster) (e : Event) (answer : List Event → Result A)
    → stops (some e) ≡ true
    → ((h : List Event)
        → (started (e ∷ h) ≡ started h)
          × (stopped (e ∷ h) ≡ stopped h)
          × (last_call (e ∷ h) ≡ some e))
    → Triple (Known c) (or_stop c (call e answer)) (λ _. Known c)
or_stop-Triple {A} c e answer s quiet h k = next (answer h)
  where
    k' : Known c (e ∷ h)
    k' = Known-same c h (e ∷ h) k (quiet h).0 (quiet h).1

    next :
        (r : Result A)
        → Post {A = A}
            (λ _. Known c)
            (elim r [ ok a ↦ (ok a, e ∷ h) | err x ↦ (err x, stop_all c (e ∷ h)) ])
    next (ok a) = k'
    next (err x) = stop_all-Failed c (e ∷ h) k' (ap stops (quiet h).2 ∙ s)

-- A step that starts and stops nothing, and fails by a call that stops nothing.
pub quiet-Triple :
    {A : Type 0} (c : NomadCluster) (m : Exec Event A)
    → ((h h' : List Event) (r : Result A)
        → m h ≡ (r, h')
        → (started h' ≡ started h)
          × (stopped h' ≡ stopped h)
          × ((e : Error) → r ≡ err e → stops (last_call h') ≡ false))
    → Triple (Known c) m (λ _. Known c)
quiet-Triple {A} c m quiet h k = next (m h).0 (m h).1 refl
  where
    next : (r : Result A) (h' : List Event) → m h ≡ (r, h') → Post (λ _. Known c) (r, h')
    next (ok a) h' p = Known-same c h h' k (quiet h h' (ok a) p).0 (quiet h h' (ok a) p).1
    next (err e) h' p =
        quiet-Failed h' ((quiet h h' (err e) p).1 ∙ k.1) ((quiet h h' (err e) p).2 e refl)
