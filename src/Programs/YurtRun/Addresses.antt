-- ===== src/Programs/YurtRun/Addresses.antt =====
-- cmd/yurt-run/main.go and cluster/dockeryurt.go: the flag -consul-server-ips, which one writes and
-- the other reads.
use Prim.Native.String.{len, slice, find}
use text.Mathlib.Text.{find?, when}
use text.Mathlib.TextFind.{find_cases}
use text.Mathlib.TextPositions.{len-append, slice-append_left, slice-append_right}
use text.Mathlib.TextLemmas.{append_assoc}
use yurt.Prelude.{
  ◌≡◌, refl, ◌∙◌, ap, sym, ℕ, zero, suc, ◌+◌, String, ◌<>◌, List, [], ◌∷◌, Option, none, some,
  arith, split, split_rounds, join_texts, leb, Bool, true, false, inl, inr, Dict,
}
use mathlib.Core.Path.{subst, subst₂}
use yurt.Clusters.YurtRun.{YurtRunCluster, node_options}
use yurt.Programs.YurtRun.{Flags, flag_config}

guarded_value : {A : Type 0} (b : Bool) (x y : A) → when b x ≡ some y → (b ≡ true) × (x ≡ y)
guarded_value true x y e = (refl, ground arith)
guarded_value false x y e = absurd (ground arith)

-- What a hit at i means.
find?_parts :
    (s t : String) (i : ℕ)
    → find? s t ≡ some i
    → (u : String) × (v : String) × (s ≡ u <> (t <> v)) × (len u ≡ i)
find?_parts s t i e =
    let (within, same) = guarded_value (leb (find s t) (len s)) (find s t) i e in
    elim (find_cases s t) [
      | inl (u, v, parts, at) ↦ (u, v, parts, omega (arith, at, same))
      | inr miss ↦ absurd (ground (arith, miss, within))
    ]

-- The pieces around a hit.
cut_left : (s t u v : String) (i : ℕ) → s ≡ u <> (t <> v) → len u ≡ i → slice s 0 i ≡ u
cut_left s t u v i e at =
    subst (λ (x : String). slice x 0 i ≡ u) (sym e)
      (subst (λ (k : ℕ). slice (u <> (t <> v)) 0 k ≡ u) at (slice-append_left u (t <> v)))

cut_right :
    (s t u v : String) (i : ℕ) → s ≡ u <> (t <> v) → len u ≡ i → slice s (i + len t) (len s) ≡ v
cut_right s t u v i e at =
    subst (λ (x : String). slice x (i + len t) (len x) ≡ v) (sym whole)
      (subst₂ (λ (k m : ℕ). slice ((u <> t) <> v) k m ≡ v) from to (slice-append_right (u <> t) v))
  where
    whole : s ≡ (u <> t) <> v
    whole = e ∙ sym (append_assoc u t v)

    from : len (u <> t) ≡ i + len t
    from = len-append u t ∙ ap (λ (k : ℕ). k + len t) at

    to : len (u <> t) + len v ≡ len ((u <> t) <> v)
    to = sym (len-append (u <> t) v)

join_cons :
    (sep u : String) (l : List String)
    → (l ≡ [] → ⊥)
    → join_texts sep (u ∷ l) ≡ u <> (sep <> join_texts sep l)
unfolding join_texts
join_cons sep u [] h = absurd (h refl)
join_cons sep u (x ∷ l) h = refl

split_rounds-ne-nil : (rounds : ℕ) (s sep : String) → split_rounds rounds s sep ≡ [] → ⊥
split_rounds-ne-nil zero s sep e = ground arith
split_rounds-ne-nil (suc rounds) s sep e = ground arith

join-split_rounds : (rounds : ℕ) (s sep : String) → join_texts sep (split_rounds rounds s sep) ≡ s
unfolding join_texts
join-split_rounds zero s sep = refl
join-split_rounds (suc rounds) s sep =
    by_hit (find? s sep) refl (λ t. join-split_rounds rounds t sep)
  where
    pieces : ℕ → Option ℕ → List String
    pieces rounds o = elim o [
      | none ↦ s ∷ []
      | some i ↦ slice s 0 i ∷ split_rounds rounds (slice s (i + len sep) (len s)) sep
    ]

    by_hit :
        (r : Option ℕ)
        → find? s sep ≡ r
        → ((t : String) → join_texts sep (split_rounds rounds t sep) ≡ t)
        → join_texts sep (split_rounds (suc rounds) s sep) ≡ s
    by_hit none p later = ground (arith, p)
    by_hit (some i) p later =
        let (u, v, parts, at) = find?_parts s sep i p in
        let rest = slice s (i + len sep) (len s) in
        ap (join_texts sep) (ap (pieces rounds) p)
        ∙ join_cons sep (slice s 0 i) (split_rounds rounds rest sep)
            (split_rounds-ne-nil rounds rest sep)
        ∙ ap (λ (x : String). x <> (sep <> join_texts sep (split_rounds rounds rest sep)))
            (cut_left s sep u v i parts at)
        ∙ ap (λ (x : String). u <> (sep <> x)) (later rest ∙ cut_right s sep u v i parts at)
        ∙ sym parts

-- The addresses that yurt-run reads from its flag, written into the command of a container, are the
-- text of the flag again.
pub flag_config-node_options :
    (f : Flags) (c : YurtRunCluster) (node : ℕ) (ip : String) (copies : Dict String)
    → c.consul_server_ips ≡ (flag_config f).consul_server_ips
    → (node_options c node ip copies).cmd
      ≡ ("-consul-server-ips=" <> f.consul_ips)
        ∷ "-consul-bin=/bin/consul"
        ∷ "-nomad-bin=/bin/nomad"
        ∷ []
unfolding node_options split
flag_config-node_options f c node ip copies e =
    ap
      (λ (t : String).
        ("-consul-server-ips=" <> t) ∷ "-consul-bin=/bin/consul" ∷ "-nomad-bin=/bin/nomad" ∷ [])
      (ap (join_texts ",") e ∙ join-split_rounds (suc (len f.consul_ips)) f.consul_ips ",")
