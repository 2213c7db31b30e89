-- ===== src/Types/Sequential.antt =====
-- types.go, `Ports.Sequential`: the numbers of the ports.
use yurt.Prelude.{
  ℕ, zero, suc, ◌+◌, ◌%◌, ◌<◌, ◌≡◌, refl, String, true, false, some, List, [], ◌∷◌, arith,
}
use yurt.Prelude.{Dict, lookup_or, lookup-insert, eq_iff, str_eq, if◌then◌else◌}
use yurt.Prelude.{length, int_mod, add_int, contains, Distinct, get_elem?}
use yurt.Types.{Port, Ports, no_port, renumber, port_of, assign, sequential}

lookup_or-renumber :
    (k j : String) (n : ℕ) (m : Dict Port)
    → lookup_or no_port j (renumber k n m) ≡ (
        if str_eq k j
        then record { number = n; type = (lookup_or no_port k m).type }
        else lookup_or no_port j m)
unfolding lookup_or
lookup_or-renumber k j n m =
    ground (arith, lookup-insert k j (record { number = n; type = (lookup_or no_port k m).type }) m)

assign_absent :
    (names : List String) (first : ℕ) (m : Dict Port) (name : String)
    → contains names name ≡ false
    → lookup_or no_port name (assign names first m) ≡ lookup_or no_port name m
unfolding assign
assign_absent [] first m name h = refl
assign_absent (x ∷ names) first m name h = ground (
  arith,
  assign_absent names (add_int first 1) (renumber x first m) name,
  lookup_or-renumber x name first m,
)

-- A name that stands in a list is found there.
contains-get_elem? :
    (names : List String) (i : ℕ) (name : String)
    → get_elem? names i ≡ some name
    → contains names name ≡ true
contains-get_elem? [] i name h = ground arith
contains-get_elem? (x ∷ names) zero name h = ground (arith, eq_iff x name)
contains-get_elem? (x ∷ names) (suc i) name h = ground (arith, contains-get_elem? names i name h)

assign_present :
    (names : List String) (first i : ℕ) (m : Dict Port) (name : String)
    → Distinct names
    → first < int_mod
    → get_elem? names i ≡ some name
    → lookup_or no_port name (assign names first m)
      ≡ record { number = (first + i) % int_mod; type = (lookup_or no_port name m).type }
unfolding assign
assign_present [] first i m name d b h = ground arith
assign_present (x ∷ names) first zero m name d b h = ground (
  arith,
  eq_iff x name,
  assign_absent names (add_int first 1) (renumber x first m) name,
  lookup_or-renumber x name first m,
)
assign_present (x ∷ names) first (suc i) m name d b h = ground (
  arith,
  eq_iff x name,
  contains-get_elem? names i name h,
  assign_present names (add_int first 1) i (renumber x first m) name d.1 (omega arith) h,
  lookup_or-renumber x name first m,
)

-- In a port list without repeated names, the name at position i gets the number firstPort + i (as
-- an `int`) and keeps its network type; the kind and the order stay.
sequential_numbers :
    (p : Ports) (first i : ℕ) (name : String)
    → Distinct p.name_order
    → first < int_mod
    → get_elem? p.name_order i ≡ some name
    → (port_of (sequential p first) name
        ≡ record { number = (first + i) % int_mod; type = (port_of p name).type })
      × ((sequential p first).kind ≡ p.kind)
      × ((sequential p first).name_order ≡ p.name_order)
unfolding sequential
sequential_numbers p first i name d b h =
    (assign_present p.name_order first i p.by_name name d b h, refl, refl)

-- first, first + 1, …: n numbers
abbrev pub count_up : ℕ → ℕ → List ℕ
count_up zero first = []
count_up (suc n) first = first ∷ count_up n (first + 1)

abbrev pub numbers_of : Dict Port → List String → List ℕ
numbers_of m [] = []
numbers_of m (name ∷ names) = (lookup_or no_port name m).number ∷ numbers_of m names

assign-consecutive :
    (names : List String) (first : ℕ) (m : Dict Port)
    → Distinct names
    → first + length names < int_mod
    → numbers_of (assign names first m) names ≡ count_up (length names) first
unfolding assign
assign-consecutive [] first m d b = refl
assign-consecutive (x ∷ names) first m d b =
    let e : (first + 1) % int_mod ≡ first + 1 = omega arith in
    ground (
      arith,
      e,
      eq_iff x x,
      assign-consecutive names (add_int first 1) (renumber x first m) d.1 (omega arith),
      assign_absent names (add_int first 1) (renumber x first m) x,
      lookup_or-renumber x x first m,
    )

-- Without wrap-around, the numbers of the ports, read in the order of the names, count up from
-- the first.
pub sequential-consecutive :
    (p : Ports) (first : ℕ)
    → Distinct p.name_order
    → first + length p.name_order < int_mod
    → numbers_of (sequential p first).by_name p.name_order ≡ count_up (length p.name_order) first
unfolding sequential
sequential-consecutive p first d b = assign-consecutive p.name_order first p.by_name d b
