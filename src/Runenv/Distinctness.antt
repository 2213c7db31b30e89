-- ===== src/Runenv/Distinctness.antt =====
-- runenv/runenv.go, `ExecEnv.AllocNode`: the ports and the names of a run of allocations.
use yurt.Prelude.{
  ℕ, zero, suc, ◌+◌, ◌<◌, ◌≡◌, refl, ap, String, List, [], ◌∷◌, ◌++◌, arith, show_int,
  trailing_number, trailing_number-dash,
}
use yurt.Prelude.{add_int32, sub_int, int32_of_int, int_of_int32, int32_half, length, Distinct, All}
use yurt.Types.{Ports, Node, sequential}
use yurt.Types.Sequential.{sequential-consecutive, numbers_of, count_up}
use yurt.Runenv.Counters.{ExecCounters, exec_alloc, exec_alloc_all, Request, numbered}

-- The port numbers of a node, in the order of its names.
abbrev pub numbers : Ports → List ℕ
numbers p = numbers_of p.by_name p.name_order

abbrev pub all_numbers : List Node → List ℕ
all_numbers [] = []
all_numbers (n ∷ nodes) = numbers n.ports ++ all_numbers nodes

-- How many ports the requests ask for.
abbrev pub ports_asked : List Request → ℕ
ports_asked [] = 0
ports_asked ((_, p) ∷ requests) = length p.name_order + ports_asked requests

-- No request lists a port name twice.
abbrev pub OrdersDistinct : List Request → Type 0
OrdersDistinct = All (λ r. Distinct r.1.name_order)

count_up-append :
    (n k first : ℕ) → count_up n first ++ count_up k (first + n) ≡ count_up (n + k) first
count_up-append zero k first =
    let e : first + 0 ≡ first = omega arith in let e' : 0 + k ≡ k = omega arith in rw (e, e')
count_up-append (suc n) k first =
    let e : first + suc n ≡ first + 1 + n = omega arith in
    let e' : suc n + k ≡ suc (n + k) = omega arith in
    rw (e, e') (ap (λ l. first ∷ l) (count_up-append n k (first + 1)))

exec_alloc-numbers :
    (c : ExecCounters) (base : String) (p : Ports)
    → Distinct p.name_order
    → c.first_port + length p.name_order < int32_half
    → (numbers (exec_alloc c base p).0.ports ≡ count_up (length p.name_order) c.first_port)
      × ((exec_alloc c base p).1.first_port ≡ c.first_port + length p.name_order)
unfolding exec_alloc sequential
exec_alloc-numbers c base p d h =
    let names = length p.name_order in
    let e : sub_int (int_of_int32 (add_int32 c.first_port (int32_of_int names))) names
        ≡ c.first_port =
      ground arith in
    (rw e (sequential-consecutive p c.first_port d (omega arith)), omega arith)

pub exec_alloc_all-numbers :
    (c : ExecCounters) (requests : List Request)
    → OrdersDistinct requests
    → c.first_port + ports_asked requests < int32_half
    → all_numbers (exec_alloc_all c requests).0 ≡ count_up (ports_asked requests) c.first_port
unfolding exec_alloc_all
exec_alloc_all-numbers c [] d h = refl
exec_alloc_all-numbers c ((base, p) ∷ requests) d h =
    let here = exec_alloc-numbers c base p d.0 (omega arith) in
    let there = exec_alloc_all-numbers (exec_alloc c base p).1 requests d.1 (omega arith) in
    rw (here.0, there, here.1)
      (count_up-append (length p.name_order) (ports_asked requests) c.first_port)

abbrev pub name_numbers : List Node → List ℕ
name_numbers [] = []
name_numbers (n ∷ nodes) = trailing_number n.name ∷ name_numbers nodes

trailing_number-numbered :
    (base : String) (count : ℕ) → count < int32_half → trailing_number (numbered base count) ≡ count
unfolding show_int
trailing_number-numbered base count h =
    let e : int_of_int32 count ≡ count = ground arith in
    rw e (ground (arith, trailing_number-dash base count))

-- The names of a run of allocations end in the numbers that count up by one from the number after the
-- node counter, whatever the base names are, as long as that counter does not overflow.
exec_alloc_all_names :
    (c : ExecCounters) (requests : List Request)
    → c.nodes + length requests < int32_half
    → name_numbers (exec_alloc_all c requests).0 ≡ count_up (length requests) (c.nodes + 1)
unfolding exec_alloc_all exec_alloc
exec_alloc_all_names c [] h = refl
exec_alloc_all_names c ((base, p) ∷ requests) h =
    let e : add_int32 c.nodes 1 ≡ c.nodes + 1 = omega arith in
    let rest = exec_alloc_all_names (exec_alloc c base p).1 requests in
    ground (arith, e, trailing_number-numbered base (add_int32 c.nodes 1), rest (omega arith))
