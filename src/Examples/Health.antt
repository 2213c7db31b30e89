-- ===== src/Examples/Health.antt =====
-- runner/runner.go and vault/vault.go: clusters that answer.
use yurt.Prelude.{
  String, ◌≡◌, ◌≢◌, refl, ◌↔◌, ◌⊎◌, Option, none, some, List, [], ◌∷◌, true, false, is_sorted,
  sort_strings, str_leb,
}
use yurt.Effects.{Error, Result, ok, err, message}
use yurt.Runner.Health.{
  LeaderPeersApi, leader_peer_apis_healthy_now, leader_apis_healthy_now, sort_slice, deep_equal,
  unhealthy,
}
use yurt.Runner.Health.Verdicts.{
  leader_peer_apis_healthy_now_iff, leader_apis_healthy_now_iff, unsorted_never_healthy, agree,
  named, answers, last_peers,
}
use yurt.Runner.Polling.{leader_peer_apis_healthy, leader_peer_apis_healthy_iff, succeeds}

abbrev peers : List String
peers = "10.0.0.2:8300" ∷ "10.0.0.3:8300" ∷ []

abbrev swapped : List String
swapped = "10.0.0.3:8300" ∷ "10.0.0.2:8300" ∷ []

abbrev member : String → LeaderPeersApi
member leader = record { leader = ok leader; peers = ok (some swapped) }

abbrev members : List LeaderPeersApi
members = member "10.0.0.2:8300" ∷ member "" ∷ []

healthy_round : leader_peer_apis_healthy_now members (some peers) ≡ ok tt
unfolding leader_peer_apis_healthy_now sort_strings str_leb
healthy_round = refl

-- Two members that each name themselves are not healthy.
split_round : leader_apis_healthy_now (ok "10.0.0.2:8300" ∷ ok "10.0.0.3:8300" ∷ []) ≡ err unhealthy
unfolding leader_apis_healthy_now
split_round = refl

leader_peer_apis_healthy_now_iff_example :
    (leader_peer_apis_healthy_now members (some peers) ≡ ok tt) ↔ (
      (l : String) × (l ≢ "")
      × (agree l (answers members) ≡ true)
      × (named l (answers members) ≡ true)
      × (deep_equal (sort_slice (last_peers none members)) (some peers) ≡ true))
leader_peer_apis_healthy_now_iff_example = leader_peer_apis_healthy_now_iff members (some peers)

leader_apis_healthy_now_iff_example :
    (leader_apis_healthy_now (answers members) ≡ ok "10.0.0.2:8300") ↔ (
      (◌≢◌ {A = String} "10.0.0.2:8300" "")
      × (agree "10.0.0.2:8300" (answers members) ≡ true)
      × (named "10.0.0.2:8300" (answers members) ≡ true))
leader_apis_healthy_now_iff_example = leader_apis_healthy_now_iff (answers members) "10.0.0.2:8300"

swapped_unsorted : is_sorted swapped ≡ false
unfolding is_sorted str_leb
swapped_unsorted = refl

unsorted_never_healthy_example : leader_peer_apis_healthy_now members (some swapped) ≡ err unhealthy
unsorted_never_healthy_example = unsorted_never_healthy members swapped swapped_unsorted

abbrev late_round : List (List LeaderPeersApi)
late_round = (member "" ∷ []) ∷ members ∷ []

leader_peer_apis_healthy_iff_example :
    (leader_peer_apis_healthy (some peers) none late_round ≡ none) ↔ (
      (◌≡◌ {A = Option Error} none none)
      × ((late_round ≡ [])
          ⊎ (succeeds (λ apis. leader_peer_apis_healthy_now apis (some peers)) late_round ≡ true)))
leader_peer_apis_healthy_iff_example = leader_peer_apis_healthy_iff (some peers) none late_round

abbrev elections : List (List (Result String))
elections = (err (message "no leader") ∷ []) ∷ (ok "http://10.0.0.2:8200" ∷ []) ∷ []
