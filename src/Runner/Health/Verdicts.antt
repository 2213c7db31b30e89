-- ===== src/Runner/Health/Verdicts.antt =====
-- When a round finds the cluster healthy, against descriptions without the loops.
use yurt.Prelude.{
  String, ◌≡◌, refl, sym, ◌≢◌, ◌↔◌, none, some, List, [], ◌∷◌, Bool, true, false, ◌&&◌, ◌||◌, arith,
  ◌∙◌,
}
use yurt.Prelude.{str_eq, sort_strings, is_sorted, is_sorted-sort_strings, eq_iff, if◌then◌else◌}
use yurt.Effects.{Result, ok, err}
use yurt.Runner.Health.{
  LeaderPeersApi, Slice, add_leader, ask_peers, ask_leaders, deep_equal, same_list, sort_slice,
  unhealthy, single, peers_verdict, leader_verdict, leader_apis_healthy_now,
  leader_peer_apis_healthy_now,
}

-- Every member answered without an error, and named `l` or nobody.
abbrev pub agree : String → List (Result String) → Bool
agree l [] = true
agree l (err e ∷ answers) = false
agree l (ok x ∷ answers) = (str_eq x "" || str_eq x l) && agree l answers

-- Some member named `l`.
abbrev pub named : String → List (Result String) → Bool
named l [] = false
named l (err e ∷ answers) = named l answers
named l (ok x ∷ answers) = str_eq x l || named l answers

-- Two leaders are two for good.
two_leaders :
    (answers : List (Result String)) (a b : String) (rest : List String)
    → single (ask_leaders answers (a ∷ b ∷ rest)).leaders ≡ none
unfolding ask_leaders
two_leaders [] a b rest = refl
two_leaders (err e ∷ answers) a b rest = refl
two_leaders (ok x ∷ answers) a b rest =
    ground (arith, two_leaders answers a b rest, two_leaders answers x a (b ∷ rest))

-- After one leader, the rest must agree with it.
one_leader :
    (answers : List (Result String)) (l : String)
    → leader_verdict (ask_leaders answers (l ∷ []))
      ≡ (if agree l answers then ok l else err unhealthy)
unfolding ask_leaders leader_verdict
one_leader [] l = refl
one_leader (err e ∷ answers) l = refl
one_leader (ok x ∷ answers) l =
    ground (arith, eq_iff x l, eq_iff l x, one_leader answers l, two_leaders answers x l [])

verdict_sound :
    (answers : List (Result String)) (l : String)
    → leader_verdict (ask_leaders answers []) ≡ ok l
    → (l ≢ "") × (agree l answers ≡ true) × (named l answers ≡ true)
unfolding ask_leaders leader_verdict
verdict_sound [] l h = ground arith
verdict_sound (err e ∷ answers) l h = ground arith
verdict_sound (ok x ∷ answers) l h =
    ground (arith, eq_iff x "", eq_iff x l, verdict_sound answers l, one_leader answers x)

verdict_complete :
    (answers : List (Result String)) (l : String)
    → l ≢ ""
    → agree l answers ≡ true
    → named l answers ≡ true
    → leader_verdict (ask_leaders answers []) ≡ ok l
unfolding ask_leaders leader_verdict
verdict_complete [] l n a s = ground arith
verdict_complete (err e ∷ answers) l n a s = ground arith
verdict_complete (ok x ∷ answers) l n a s =
    ground (arith, eq_iff x "", eq_iff x l, verdict_complete answers l n, one_leader answers x)

-- A round of `LeaderAPIsHealthyNow` returns the leader l exactly when l is not empty, no member
-- failed, each named l or nobody, and at least one named l.
pub leader_apis_healthy_now_iff :
    (answers : List (Result String)) (l : String)
    → (leader_apis_healthy_now answers ≡ ok l)
      ↔ ((l ≢ "") × (agree l answers ≡ true) × (named l answers ≡ true))
unfolding leader_apis_healthy_now
leader_apis_healthy_now_iff answers l =
    (verdict_sound answers l, λ (n, a, s). verdict_complete answers l n a s)

-- A member's answer to both questions together.
abbrev answer : LeaderPeersApi → Result String
answer api = elim api.peers [ err e ↦ err e | ok peers ↦ api.leader ]

abbrev pub answers : List LeaderPeersApi → List (Result String)
answers [] = []
answers (api ∷ apis) = answer api ∷ answers apis

-- The peers of the member that was asked last.
abbrev pub last_peers : Slice → List LeaderPeersApi → Slice
last_peers peers [] = peers
last_peers peers (api ∷ apis) = last_peers (elim api.peers [ err e ↦ none | ok p ↦ p ]) apis

-- The verdict on the peers, from the one on the leaders.
abbrev with_peers : Result String → Slice → Slice → Result (Unit {0})
with_peers (err e) peers expected = err unhealthy
with_peers (ok l) peers expected =
    if deep_equal (sort_slice peers) expected then ok tt else err unhealthy

module _ (apis : List LeaderPeersApi) (expected : Slice) where
  abbrev AsDescribed : Type 0
  AsDescribed =
      (leaders : List String) (peers : Slice)
      → peers_verdict (ask_peers apis leaders peers) expected
        ≡ with_peers (leader_verdict (ask_leaders (answers apis) leaders)) (last_peers peers apis)
            expected

peers_step :
    (apis : List LeaderPeersApi) (expected : Slice) (leader : Result String) (peers : Result Slice)
    → AsDescribed apis expected
    → AsDescribed (record { leader = leader; peers = peers } ∷ apis) expected
unfolding ask_peers ask_leaders peers_verdict leader_verdict
peers_step apis expected (err e) (err e') ih leaders p = ground arith
peers_step apis expected (err e) (ok p') ih leaders p = ground arith
peers_step apis expected (ok l) (err e') ih leaders p = ground arith
peers_step apis expected (ok l) (ok p') ih leaders p = ih (add_leader l leaders) p'

described : (apis : List LeaderPeersApi) (expected : Slice) → AsDescribed apis expected
unfolding ask_peers ask_leaders peers_verdict leader_verdict
described [] expected leaders p = ground arith
described (api ∷ apis) expected leaders p =
    peers_step apis expected api.leader api.peers (described apis expected) leaders p

same_list-eq : (xs ys : List String) → same_list xs ys ≡ true → xs ≡ ys
same_list-eq [] [] h = refl
same_list-eq [] (y ∷ ys) h = ground arith
same_list-eq (x ∷ xs) [] h = ground arith
same_list-eq (x ∷ xs) (y ∷ ys) h = ground (arith, eq_iff x y, same_list-eq xs ys)

-- A round of `LeaderPeerAPIsHealthyNow` succeeds exactly when no member failed, the members name one
-- leader (each that one or nobody, at least one that one), and the peers of the last member, sorted,
-- are the expected ones.
pub leader_peer_apis_healthy_now_iff :
    (apis : List LeaderPeersApi) (expected : Slice)
    → (leader_peer_apis_healthy_now apis expected ≡ ok tt) ↔ (
        (l : String) × (l ≢ "")
        × (agree l (answers apis) ≡ true)
        × (named l (answers apis) ≡ true)
        × (deep_equal (sort_slice (last_peers none apis)) expected ≡ true))
unfolding leader_peer_apis_healthy_now
leader_peer_apis_healthy_now_iff apis expected = (
  λ h.
      found (leader_verdict (ask_leaders (answers apis) [])) refl
        (sym (described apis expected [] none) ∙ h),
  λ (l, n, a, s, d).
      described apis expected [] none ∙ rw (verdict_complete (answers apis) l n a s, d),
)
  where
    found :
        (v : Result String)
        → leader_verdict (ask_leaders (answers apis) []) ≡ v
        → with_peers v (last_peers none apis) expected ≡ ok tt
        → (l : String) × (l ≢ "")
          × (agree l (answers apis) ≡ true)
          × (named l (answers apis) ≡ true)
          × (deep_equal (sort_slice (last_peers none apis)) expected ≡ true)
    found (err e) v h = absurd (ground arith)
    found (ok l) v h = let s = verdict_sound (answers apis) l v in (l, s.0, s.1, s.2, ground arith)

deep_equal-unsorted :
    (peers : Slice) (expected : List String)
    → is_sorted expected ≡ false
    → deep_equal (sort_slice peers) (some expected) ≡ false
deep_equal-unsorted none expected h = refl
deep_equal-unsorted (some xs) expected h =
    ground (arith, same_list-eq (sort_strings xs) expected, is_sorted-sort_strings xs)

-- If the expected peers do not stand in the order of `sort.Strings`, no round ever succeeds,
-- whatever the members answer.
pub unsorted_never_healthy :
    (apis : List LeaderPeersApi) (expected : List String)
    → is_sorted expected ≡ false
    → leader_peer_apis_healthy_now apis (some expected) ≡ err unhealthy
unfolding leader_peer_apis_healthy_now
unsorted_never_healthy apis expected h =
    described apis (some expected) [] none
    ∙ ground (arith, deep_equal-unsorted (last_peers none apis) expected h)
