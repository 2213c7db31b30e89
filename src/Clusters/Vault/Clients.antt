-- ===== src/Clusters/Vault/Clients.antt =====
-- cluster/cluster.go, `NewVaultCluster`: the goroutines share the variable `client`.
use yurt.Prelude.{
  ◌≡◌, refl, ◌∙◌, ap, sym, ℕ, zero, suc, ◌+◌, String, Bool, false, List, [], ◌∷◌, arith, Bool-cases,
}
use mathlib.Core.Path.{subst}
use mathlib.Core.Logic.{inl, inr}
use yurt.Effects.{Result, ok, err}
use yurt.Effects.Methods.{continue, lift, reading, ◌>>◌, bind-eq-ok}
use yurt.Types.{Node}
use yurt.Sealing.{SealStatus}
use yurt.Clusters.{Event, Harness}
use yurt.Clusters
use yurt.Clusters.Vault.{
  VaultCluster, VaultWorld, Turn, attempt, expire, nth, consul_addr_of, add_node, client_status,
  join, reading,
}
use yurt.Clusters.Vault.Joining.{
  Group, is_waiting, joined, try_unseal, take_turn, take_turns, yield, join_rest, wait_all, outcome,
  give_up_all, give_up,
}
use yurt.Clusters.Vault.Idle.{IsIdle-IsQuiet, yield-IsIdle}
use yurt.Clusters.Vault.Quiet.{State}

-- All calls between the two histories are calls that unseal the server `x`.
pub data Only (x : Harness) (h : List Event) : List Event → Type 0 where
  no_call : Only x h h
  unsealed :
      {h' : List Event} (key : String)
      → Only x h h'
      → Only x h (Clusters.vault_unseal x key false ∷ h')

Only-trans : {x : Harness} {h h1 h2 : List Event} → Only x h h1 → Only x h1 h2 → Only x h h2
Only-trans p no_call = p
Only-trans p (unsealed key q) = unsealed key (Only-trans p q)

-- One call at most, and the variable `client` stays.
record KeepsClient (g : Group) (s : State) (r : Result Group × State) : Type 0 where
  calls : Only g.client s.1 r.1.1
  same_client : (g' : Group) → r.0 ≡ ok g' → g'.client ≡ g.client

stays-KeepsClient : (g : Group) (s : State) → KeepsClient g s (ok g, s)
stays-KeepsClient g s = record { calls = no_call; same_client = λ g' p. ground arith }

try_unseal-KeepsClient :
    (w : VaultWorld) (i : ℕ) (g : Group) (s : State) → KeepsClient g s (try_unseal w i g s)
unfolding try_unseal nth
try_unseal-KeepsClient w i g s = by_keys s.0.unseal_keys refl
  where
    by_keys : (keys : List String) → s.0.unseal_keys ≡ keys → KeepsClient g s (try_unseal w i g s)
    by_keys [] e = record {
      calls = subst (Only g.client s.1) (sym (ground arith)) no_call;
      same_client = λ g' p. absurd (ground arith);
    }
    by_keys (key ∷ keys) e = record {
      calls = subst (Only g.client s.1) (sym (ground arith)) (unsealed key no_call);
      same_client = λ g' p. ground arith;
    }

take_turn-KeepsClient :
    (w : VaultWorld) (g : Group) (t : Turn) (s : State) → KeepsClient g s (take_turn w g t s)
unfolding take_turn give_up
take_turn-KeepsClient w g (attempt i) s = elim (Bool-cases (is_waiting i g.waiting)) [
  | inl e ↦ rw e (try_unseal-KeepsClient w i g s)
  | inr e ↦ rw e (stays-KeepsClient g s)
]
take_turn-KeepsClient w g (expire i) s = record {
  calls = no_call;
  same_client = λ g' p. ground arith;
}

take_turns-KeepsClient :
    (w : VaultWorld) (turns : List Turn) (g : Group) (s : State)
    → KeepsClient g s (take_turns w turns g s)
unfolding take_turns
take_turns-KeepsClient w [] g s = stays-KeepsClient g s
take_turns-KeepsClient w (t ∷ turns) g s =
    next (take_turn w g t s) (take_turn-KeepsClient w g t s)
      (λ g1 s1. take_turns-KeepsClient w turns g1 s1)
  where
    next :
        (r : Result Group × State)
        → KeepsClient g s r
        → ((g1 : Group) (s1 : State) → KeepsClient g1 s1 (take_turns w turns g1 s1))
        → KeepsClient g s (continue r.0 (take_turns w turns) r.1)
    next (err e, s1) k later = record {
      calls = k.calls;
      same_client = λ g' p. absurd (ground arith);
    }
    next (ok g1, s1) k later =
        let same = k.same_client g1 refl in
        let rest = later g1 s1 in
        record {
          calls =
              Only-trans k.calls (
                subst (λ (x : Harness). Only x s1.1 (take_turns w turns g1 s1).1.1) same
                  rest.calls);
          same_client = λ g' p. rest.same_client g' p ∙ same;
        }

wait_all-Only : (w : VaultWorld) (g : Group) (s : State) → Only g.client s.1 (wait_all w g s).1.1
unfolding wait_all yield
wait_all-Only w g s =
    next (take_turns w (w.turns s.1) g s) (take_turns-KeepsClient w (w.turns s.1) g s)
  where
    next :
        (r : Result Group × State)
        → KeepsClient g s r
        → Only g.client s.1
            (continue {B = Unit {0}} r.0
              (λ g. lift (outcome (give_up_all w g.waiting g).failed))
              r.1).1.1
    next (err e, s1) k = k.calls
    next (ok g1, s1) k = k.calls

client_status_ok :
    (w : VaultWorld) (i : ℕ) (x : Harness) (status : SealStatus) (s s' : State)
    → client_status w i s ≡ (ok (x, status), s')
    → (nth s.0.servers i ≡ ok x) × (s'.0 ≡ s.0)
unfolding client_status
client_status_ok w i x status s s' e = (ground arith, ground arith)

join_client :
    (w : VaultWorld) (nodes : List Node) (has_ca : Bool) (multiplier i : ℕ) (x : Harness)
    (status : SealStatus) (s s' : State)
    → join w nodes has_ca multiplier i s ≡ (ok (x, status), s')
    → nth s'.0.servers i ≡ ok x
unfolding join
join_client w nodes has_ca multiplier i x status s s' e =
    let (node, s1, _, r1) = bind-eq-ok (lift (nth nodes i)) _ s e in
    let (addrs, s2, _, r2) =
      bind-eq-ok (reading (λ (c : VaultCluster). c.consul_addrs))
        (λ (a : List String).
          add_node w node (consul_addr_of a i) has_ca multiplier >> client_status w i)
        s1 r1 in
    let (_, s3, _, r3) =
      bind-eq-ok (add_node w node (consul_addr_of addrs i) has_ca multiplier)
        (λ _. client_status w i) s2 r2 in
    let (found, same) = client_status_ok w i x status s3 s' r3 in
    ap (λ (c : VaultCluster). nth c.servers i) same ∙ found

joined_client :
    (w : VaultWorld) (g : Group) (s s' : State) (g' : Group)
    → yield w g s ≡ (ok g', s')
    → (s'.0.servers ≡ s.0.servers) × (g'.client ≡ g.client)
unfolding yield
joined_client w g s s' g' e = (
  ap (λ (r : Result Group × State). r.1.0.servers) (sym e)
      ∙ ((IsIdle-IsQuiet (yield-IsIdle w g)).same s).0,
  (take_turns-KeepsClient w (w.turns s.1) g s).same_client g'
      (ap (λ (r : Result Group × State). r.0) e),
)

-- One round of the loop leaves the client of the server that it has started.
round_client :
    (w : VaultWorld) (nodes : List Node) (has_ca : Bool) (multiplier rounds i : ℕ) (g g' : Group)
    (s s' : State)
    → join_rest w nodes has_ca multiplier (suc rounds) i g s ≡ (ok g', s')
    → (g1 : Group) × (s1 : State) × (join_rest w nodes has_ca multiplier rounds (i + 1) g1 s1
        ≡ (ok g', s'))
      × (nth s1.0.servers i ≡ ok g1.client)
unfolding join_rest
round_client w nodes has_ca multiplier rounds i g g' s s' e =
    let (server, s1, e1, r1) = bind-eq-ok (join w nodes has_ca multiplier i) _ s e in
    let (g1, s2, e2, r2) =
      bind-eq-ok (yield w (joined i g server)) (join_rest w nodes has_ca multiplier rounds (i + 1))
        s1 r1 in
    let (servers, client) = joined_client w (joined i g server) s1 s2 g1 e2 in
    (
      g1,
      s2,
      r2,
      ap (λ (l : List Harness). nth l i) servers
          ∙ join_client w nodes has_ca multiplier i server.0 server.1 s s1 e1
          ∙ ap (λ (x : Harness). ok x) (sym client),
    )

-- After the loop, `client` is that of the last server.
join_rest_client :
    (w : VaultWorld) (nodes : List Node) (has_ca : Bool) (multiplier rounds i : ℕ) (g g' : Group)
    (s s' : State)
    → join_rest w nodes has_ca multiplier (suc rounds) i g s ≡ (ok g', s')
    → nth s'.0.servers (i + rounds) ≡ ok g'.client
unfolding join_rest
join_rest_client w nodes has_ca multiplier zero i g g' s s' e =
    let (g1, s1, r, found) = round_client w nodes has_ca multiplier zero i g g' s s' e in
    ground arith
join_rest_client w nodes has_ca multiplier (suc rounds) i g g' s s' e =
    let (g1, s1, r, found) = round_client w nodes has_ca multiplier (suc rounds) i g g' s s' e in
    let later = join_rest_client w nodes has_ca multiplier rounds (i + 1) g1 g' s1 s' r in
    ground arith

-- When all further servers of a Vault cluster have joined, the goroutines that still wait unseal no
-- server but the last: every call until `Wait` returns is one that unseals it.
pub wait_all_last :
    (w : VaultWorld) (nodes : List Node) (has_ca : Bool) (multiplier rounds i : ℕ) (g g' : Group)
    (s s' : State)
    → join_rest w nodes has_ca multiplier (suc rounds) i g s ≡ (ok g', s')
    → (x : Harness) × (nth s'.0.servers (i + rounds) ≡ ok x) × Only x s'.1 (wait_all w g' s').1.1
wait_all_last w nodes has_ca multiplier rounds i g g' s s' e = (
  g'.client,
  join_rest_client w nodes has_ca multiplier rounds i g g' s s' e,
  wait_all-Only w g' s',
)
