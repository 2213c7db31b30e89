-- ===== src/Docker/Network.antt =====
-- `SetupNetwork` and `createNetwork`.
pub mod Setup
use yurt.Prelude.{String, Bool, List, [], ◌∷◌, Option, none, some, str_eq, if◌then◌else◌}
use yurt.Effects.{Error, Result, ok, err, wrapped}
use yurt.Effects.Calls.{Exec, pure, raise, call, ◌>>=◌, ◌>>◌}

-- Of a `NetworkResource`: its ID, its name and the subnets of its IPAM configuration.
pub record Network : Type 0 where
  pub id : String
  pub name : String
  pub subnets : List String

pub data Event : Type 0 where
  list : Event
  remove : String → Event
  create : String → String → Event
  inspect : String → Event

-- The answers of the Docker API.
pub record Api : Type 0 where
  pub list : List Event → Result (List Network)
  pub remove : String → List Event → Result (Unit {0})
  pub create : String → String → List Event → Result String
  pub inspect : String → List Event → Result Network

-- The loop over the networks: `some` is an early return of one that can be used.
unfoldable pub search_networks : Api → String → List Network → Exec Event (Option Network)
search_networks api net_name [] = pure none
search_networks api net_name (n ∷ networks) =
    let rest = search_networks api net_name networks in
    if str_eq n.name net_name
    then (elim n.subnets [
      | s ∷ subnets ↦ pure (some n)
      | [] ↦ call (remove n.id) (api.remove n.id) >> rest
    ])
    else rest

-- An error of `f` is wrapped.
abbrev wrap_error {ℓ} : {A : Type ℓ} → String → Result A → Result A
wrap_error text (ok a) = ok a
wrap_error text (err e) = err (wrapped text e)

-- `createNetwork`, then `NetworkInspect`
unfoldable pub create_network : Api → String → String → Exec Event Network
create_network api net_name cidr = do
  id ←
      call (create net_name cidr)
        (λ h. wrap_error "couldn't create network" (api.create net_name cidr h))
  call (inspect id) (api.inspect id)

-- What follows the loop.
unfoldable pub use_or_create : Api → String → String → Option Network → Exec Event Network
use_or_create api net_name cidr (some n) = pure n
use_or_create api net_name cidr none = create_network api net_name cidr

-- `SetupNetwork`
unfoldable pub setup_network : Api → String → String → Exec Event Network
unfolding search_networks create_network use_or_create
setup_network api net_name cidr = do
  networks ← call list api.list
  found ← search_networks api net_name networks
  use_or_create api net_name cidr found
