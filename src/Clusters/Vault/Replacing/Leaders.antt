-- ===== src/Clusters/Vault/Replacing/Leaders.antt =====
-- cluster/cluster.go: the search for the leader in `ReplaceAllActiveLast`.
use yurt.Prelude.{
  ◌≡◌, refl, ◌∙◌, ap, ◌↔◌, ℕ, suc, ◌+◌, String, false, List, [], ◌∷◌, ◌++◌, none, some, length,
  contains, str_eq, eq_iff, arith, Bool-cases, inl, inr,
}
use yurt.Effects.{ok}
use yurt.Clusters.Vault.Replacing.{find_leader}

found_one :
    (leader : String) (i l0 l : ℕ) (addresses : List String)
    → (find_leader leader i (some l0) addresses ≡ ok l)
      ↔ ((l ≡ l0) × (contains addresses leader ≡ false))
unfolding find_leader
found_one leader i l0 l [] = (λ e. ground arith, λ e. ground arith)
found_one leader i l0 l (a ∷ addresses) =
    let (there, back) = found_one leader (i + 1) l0 l addresses in
    (λ e. ground (arith, there), λ e. ground (arith, back))

-- One of the addresses is the leader's, after `n` others.
abbrev pub OnlyAt : ℕ → String → List String → Type 0
OnlyAt n leader addresses =
    (before : List String) × (after : List String) × (addresses ≡ before ++ leader ∷ after)
    × (length before ≡ n)
    × (contains before leader ≡ false)
    × (contains after leader ≡ false)

find_none :
    (leader : String) (i l : ℕ) (addresses : List String)
    → find_leader leader i none addresses ≡ ok l
    → (n : ℕ) × (l ≡ i + n) × OnlyAt n leader addresses
unfolding find_leader
find_none leader i l [] e = absurd (ground arith)
find_none leader i l (a ∷ addresses) e = elim (Bool-cases (str_eq a leader)) [
  | inl same ↦
      let (number, once) = (found_one leader (i + 1) i l addresses).0 (ground arith) in
      (
        0,
        omega (arith, number),
        (
          [],
          addresses,
          ap (λ (x : String). x ∷ addresses) (ground (arith, eq_iff a leader)),
          refl,
          refl,
          once,
        ),
      )
  | inr other ↦
      let (n, number, at) = find_none leader (i + 1) l addresses (ground arith) in
      let (before, after, parts, many, once, rest) = at in
      (
        suc n,
        omega (arith, number),
        (a ∷ before, after, ap (λ (r : List String). a ∷ r) parts, ap suc many, ground arith, rest),
      )
]

find_at :
    (leader : String) (i : ℕ) (before after : List String)
    → contains before leader ≡ false
    → contains after leader ≡ false
    → find_leader leader i none (before ++ leader ∷ after) ≡ ok (i + length before)
unfolding find_leader
find_at leader i [] after p q =
    ground (arith, eq_iff leader leader, (found_one leader (i + 1) i i after).1)
find_at leader i (a ∷ before) after p q = ground (arith, find_at leader (i + 1) before after)

-- `ReplaceAllActiveLast` takes server n for the leader exactly when the address of the leader is
-- that of client n and of no other client.
pub find_leader_iff :
    (leader : String) (n : ℕ) (addresses : List String)
    → (find_leader leader 0 none addresses ≡ ok n) ↔ OnlyAt n leader addresses
find_leader_iff leader n addresses = (
  λ e.
      let (k, number, at) = find_none leader 0 n addresses e in
      let (before, after, parts, many, p, q) = at in
      (before, after, parts, omega (arith, number, many), p, q),
  λ o.
      let (before, after, parts, many, p, q) = o in
      ap (find_leader leader 0 none) parts
      ∙ find_at leader 0 before after p q
      ∙ ap (λ (x : ℕ). ok (0 + x)) many
      ∙ ap (λ (x : ℕ). ok x) (ground arith),
)
