-- ===== src/Clusters/Consul/Leftovers.antt =====
-- cluster/cluster.go: what the creation of a Consul cluster stops.
use yurt.Prelude.{◌≡◌, List}
use yurt.Effects.Calls.{Exec}
use yurt.Clusters.{Event}
use yurt.Clusters.Consul.Allocating.{stopped}

-- Whatever `m` returns, it stops no process.
abbrev Spares : {A : Type 0} → Exec Event A → Type 0
Spares m = (h : List Event) → stopped (m h).1 ≡ stopped h
