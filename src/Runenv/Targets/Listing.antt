-- ===== src/Runenv/Targets/Listing.antt =====
-- runenv/runenv.go, `MonitoredEnv.AllocNode`: the files after a run of allocations.
use yurt.Prelude.{String, List, [], ◌∷◌, Option, none, some, lookup_or, ◌≡◌, str_eq, if◌then◌else◌}
use yurt.Effects.{Error}
use yurt.Types.{Ports, Node}
use yurt.Runenv.Targets.{MonitoredEnv, http_addr, servers_file, monitored_alloc}

-- A call of `AllocNode`: the parent's node, the ports, and the error of the write.
abbrev pub Allocation : Type 0
Allocation = Node × Ports × Option Error

abbrev pub alloc_all : MonitoredEnv → List Allocation → MonitoredEnv
alloc_all e [] = e
alloc_all e ((node, ports, write) ∷ calls) = alloc_all (monitored_alloc e node ports write).1 calls

-- The targets of a kind after the calls: the addresses of its nodes, the newest first, without
-- those whose write failed.
abbrev pub listed : String → List String → List Allocation → List String
listed kind old [] = old
listed kind old ((node, ports, some x) ∷ calls) = listed kind old calls
listed kind old ((node, ports, none) ∷ calls) =
    listed kind (if str_eq ports.kind kind then http_addr node ∷ old else old) calls

record Agrees (kind : String) (old : List String) (e : MonitoredEnv) : Type 0 where
  in_map : lookup_or [] kind e.addrs ≡ old
  in_file : lookup_or [] (servers_file kind) e.files ≡ old
