-- ===== src/Docker/Network/Setup.antt =====
-- Which network `SetupNetwork` returns.
use yurt.Prelude.{
  String, ◌≡◌, Bool, true, false, List, [], ◌∷◌, Option, none, some, str_eq, arith, if◌then◌else◌,
  ◌⊎◌, inr, sym, inl, ◌∙◌,
}
use yurt.Effects.{ok}
use yurt.Effects.Calls.{call, ◌>>=◌, bind-eq-ok}
use yurt.Docker.Network.{
  Network, Event, Api, create, list, search_networks, create_network, setup_network, use_or_create,
  remove,
}

-- The network can be used as it is.
abbrev pub usable : String → Network → Bool
usable net_name n = elim n.subnets [ [] ↦ false | s ∷ subnets ↦ str_eq n.name net_name ]

abbrev pub first_usable : String → List Network → Option Network
first_usable net_name [] = none
first_usable net_name (n ∷ networks) =
    let rest = first_usable net_name networks in if usable net_name n then some n else rest

-- The call of `NetworkCreate` is among the events.
abbrev pub created : List Event → Bool
created [] = false
created (create n c ∷ h) = true
created (_ ∷ h) = created h

search_networks_ok :
    (api : Api) (net_name : String) (networks : List Network) (h h' : List Event)
    (found : Option Network)
    → search_networks api net_name networks h ≡ (ok found, h')
    → (found ≡ first_usable net_name networks) × (created h' ≡ created h)
unfolding search_networks
search_networks_ok api net_name [] h h' found e = ground arith
search_networks_ok api net_name (n ∷ networks) h h' found e = ground (
  arith,
  search_networks_ok api net_name networks h h' found,
  search_networks_ok api net_name networks (remove n.id ∷ h) h' found,
)

create_network-created :
    (api : Api) (net_name cidr : String) (h h' : List Event) (n : Network)
    → create_network api net_name cidr h ≡ (ok n, h')
    → created h' ≡ true
unfolding create_network
create_network-created api net_name cidr h h' n e = ground arith

-- When `SetupNetwork` succeeds, it has either returned the first listed network of the name that has
-- a subnet and created none, or there was no such network and it has created one.
pub setup_network_ok :
    (api : Api) (net_name cidr : String) (networks : List Network) (n : Network) (h' : List Event)
    → api.list [] ≡ ok networks
    → setup_network api net_name cidr [] ≡ (ok n, h')
    → ((first_usable net_name networks ≡ some n) × (created h' ≡ false))
      ⊎ ((first_usable net_name networks ≡ none) × (created h' ≡ true))
unfolding setup_network
setup_network_ok api net_name cidr networks n h' l e =
    let choose = use_or_create api net_name cidr in
    let k = λ (ns : List Network). search_networks api net_name ns >>= choose in
    let (ns, h1, e1, r1) = bind-eq-ok (call list api.list) k [] e in
    let (found, h2, e2, r2) = bind-eq-ok (search_networks api net_name ns) choose h1 r1 in
    let s = search_networks_ok api net_name ns h1 h2 found e2 in
    finish found h2 (cc (s.0, l, e1)) (s.1 ∙ ground arith) r2
  where
    finish :
        (found : Option Network) (h2 : List Event)
        → found ≡ first_usable net_name networks
        → created h2 ≡ false
        → use_or_create api net_name cidr found h2 ≡ (ok n, h')
        → ((first_usable net_name networks ≡ some n) × (created h' ≡ false))
          ⊎ ((first_usable net_name networks ≡ none) × (created h' ≡ true))
    finish none h2 f c r = inr (sym f, create_network-created api net_name cidr h2 h' n r)
    finish (some m) h2 f c r = inl (ground arith, ground arith)
