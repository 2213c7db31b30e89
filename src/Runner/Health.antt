-- ===== src/Runner/Health.antt =====
-- `LeaderAPIsHealthyNow` and `LeaderPeerAPIsHealthyNow`: one round of questions.
pub mod Verdicts
use yurt.Prelude.{String, Option, none, some, List, [], ◌∷◌, Bool, true, false, ◌&&◌, ◌≡◌, refl}
use yurt.Prelude.{str_eq, contains, sort_strings, if◌then◌else◌}
use yurt.Effects.{Error, Result, ok, err, message}

-- A `[]string`, which may be nil.
abbrev pub Slice : Type 0
Slice = Option (List String)

-- What one member answers in the round: `Leader()` and `Peers()`.
pub record LeaderPeersApi : Type 0 where
  pub leader : Result String
  pub peers : Result Slice

-- `leaders[leader] = struct{}{}` for a leader that is not empty
abbrev pub add_leader : String → List String → List String
add_leader leader leaders =
    if str_eq leader ""
    then leaders
    else if contains leaders leader
    then leaders
    else leader ∷ leaders

-- What the loop leaves: whether `errs` is empty, the set of leaders, and the last peers.
pub record Round : Type 0 where
  pub failed : Bool
  pub leaders : List String
  pub peers : Slice

-- The loop of `LeaderPeerAPIsHealthyNow`. `break` leaves the loop at the first error; what `Peers`
-- returns beside an error is not looked at.
ask_peers : List LeaderPeersApi → List String → Slice → Round
ask_peers [] leaders peers = record { failed = false; leaders = leaders; peers = peers }
ask_peers (api ∷ apis) leaders peers = elim api.leader [
  | err e ↦ record { failed = true; leaders = leaders; peers = peers }
  | ok leader ↦ elim api.peers [
    | err e ↦ record { failed = true; leaders = add_leader leader leaders; peers = none }
    | ok peers' ↦ ask_peers apis (add_leader leader leaders) peers'
  ]
]

-- The loop of `LeaderAPIsHealthyNow`.
ask_leaders : List (Result String) → List String → Round
ask_leaders [] leaders = record { failed = false; leaders = leaders; peers = none }
ask_leaders (err e ∷ apis) leaders = record { failed = true; leaders = leaders; peers = none }
ask_leaders (ok leader ∷ apis) leaders = ask_leaders apis (add_leader leader leaders)

abbrev same_list : List String → List String → Bool
same_list [] [] = true
same_list (x ∷ xs) (y ∷ ys) = str_eq x y && same_list xs ys
same_list _ _ = false

-- `reflect.DeepEqual`: a nil slice differs from an empty one.
abbrev pub deep_equal : Slice → Slice → Bool
deep_equal none none = true
deep_equal (some xs) (some ys) = same_list xs ys
deep_equal _ _ = false

-- `sort.Strings(peers)`
abbrev pub sort_slice : Slice → Slice
sort_slice none = none
sort_slice (some xs) = some (sort_strings xs)

abbrev pub unhealthy : Error
unhealthy = message "expected no errs, 1 leader"

-- `len(leaders) == 1`, and the one key of the map
abbrev pub single : List String → Option String
single (leader ∷ []) = some leader
single _ = none

-- The verdict, from what the loop left. The error's text also lists what was seen.
peers_verdict : Round → Slice → Result (Unit {0})
peers_verdict r expected_peers = elim (single r.leaders) [
  | none ↦ err unhealthy
  | some leader ↦
      if r.failed
      then err unhealthy
      else if deep_equal (sort_slice r.peers) expected_peers
      then ok tt
      else err unhealthy
]

unfoldable pub leader_peer_apis_healthy_now : List LeaderPeersApi → Slice → Result (Unit {0})
unfolding ask_peers peers_verdict
leader_peer_apis_healthy_now apis expected_peers =
    peers_verdict (ask_peers apis [] none) expected_peers

leader_verdict : Round → Result String
leader_verdict r = elim (single r.leaders) [
  | none ↦ err unhealthy
  | some leader ↦ if r.failed then err unhealthy else ok leader
]

unfoldable pub leader_apis_healthy_now : List (Result String) → Result String
unfolding ask_leaders leader_verdict
leader_apis_healthy_now apis = leader_verdict (ask_leaders apis [])
