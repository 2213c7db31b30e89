-- ===== src/Programs/YurtRun/Agents.antt =====
-- cmd/yurt-run/main.go: the agents that a node runs.
use yurt.Prelude.{
  ◌≡◌, refl, ap, String, true, List, [], ◌∷◌, All, arith, eq_iff, Bool-cases, inl, inr, ◌⊎◌,
}
use mathlib.Core.Path.{subst}
use yurt.Effects.{Result, ok, err}
use yurt.Effects.Calls.{Exec, lift, pure, ◌>>=◌, ◌>>◌, bind-eq-ok}
use yurt.Programs.YurtRun.{
  YurtConfig, Event, Host, check_ips, own_ip, find_ip, locate, wrap_error, network_cidr,
}

-- An address with the property is in the list.
pub data Some {A : Type 0} (P : A → Type 0) : List A → Type 0 where
  here : {x : A} {l : List A} → P x → Some P (x ∷ l)
  there : {x : A} {l : List A} → Some P l → Some P (x ∷ l)

-- The text is an address in the network.
abbrev pub Inside : (w : Host) → w.Addr → String → Type 0
Inside w network ip = (a : w.Addr) × (w.parse ip ≡ ok a) × (w.within network a ≡ true)

check_ips-Inside :
    (w : Host) (network : w.Addr) (ips : List String)
    → check_ips w network ips ≡ ok tt
    → All (Inside w network) ips
unfolding check_ips
check_ips-Inside w network [] e = tt
check_ips-Inside w network (ip ∷ ips) e =
    by_answer (w.parse ip) refl (λ k. check_ips-Inside w network ips k)
  where
    by_answer :
        (r : Result w.Addr)
        → w.parse ip ≡ r
        → (check_ips w network ips ≡ ok tt → All (Inside w network) ips)
        → All (Inside w network) (ip ∷ ips)
    by_answer (err x) p later = absurd (ground arith)
    by_answer (ok a) p later = ((a, p, ground arith), later (ground arith))

own_ip_lem :
    (w : Host) (network : w.Addr) (found : String) (interfaces : List w.Addr)
    → (own_ip w network found interfaces ≡ found)
      ⊎ Some
          (λ a. (w.within network a ≡ true) × (own_ip w network found interfaces ≡ w.ip a))
          interfaces
unfolding own_ip
own_ip_lem w network found [] = inl refl
own_ip_lem w network found (x ∷ interfaces) = elim (Bool-cases (w.within network x)) [
  | inl e ↦ rw e (elim (own_ip_lem w network (w.ip x) interfaces) [
    | inl same ↦ inr (here (e, same))
    | inr later ↦ inr (there later)
  ])
  | inr e ↦ rw e (elim (own_ip_lem w network found interfaces) [
    | inl same ↦ inl same
    | inr later ↦ inr (there later)
  ])
]

-- The address is that of an interface in the network.
abbrev pub OwnAddress : (w : Host) → w.Addr → String → Type 0
OwnAddress w network ip =
    (interfaces : List w.Addr) × (w.interfaces ≡ ok interfaces)
    × Some (λ a. (w.within network a ≡ true) × (ip ≡ w.ip a)) interfaces

find_ip-OwnAddress :
    (w : Host) (network : w.Addr) (ip : String)
    → find_ip w network ≡ ok ip
    → OwnAddress w network ip
unfolding find_ip
find_ip-OwnAddress w network ip e = by_answer w.interfaces refl
  where
    by_answer : (r : Result (List w.Addr)) → w.interfaces ≡ r → OwnAddress w network ip
    by_answer (err x) p = absurd (ground arith)
    by_answer (ok interfaces) p = elim (own_ip_lem w network "" interfaces) [
      | inl none_found ↦ absurd (ground (arith, eq_iff (own_ip w network "" interfaces) ""))
      | inr found ↦
          let same : own_ip w network "" interfaces ≡ ip = ground arith in
          (
            interfaces,
            p,
            subst
                (λ (t : String). Some (λ a. (w.within network a ≡ true) × (t ≡ w.ip a)) interfaces)
                same found,
          )
    ]

-- The node is in the network that was configured, with all Consul servers.
abbrev pub Located : (w : Host) → YurtConfig → Type 0
Located w c =
    (network : w.Addr) × (w.parse c.network_cidr ≡ ok network)
    × All (Inside w network) c.consul_server_ips
    × OwnAddress w network c.server_ip

wrap_error_ok :
    {A : Type 0} (text : String) (r : Result A) (a : A) → wrap_error text r ≡ ok a → r ≡ ok a
unfolding wrap_error
wrap_error_ok text (ok x) a e = e
wrap_error_ok text (err x) a e = absurd (ground arith)

pub locate-Located :
    (w : Host) (c d : YurtConfig) (h h' : List Event)
    → locate w c h ≡ (ok d, h')
    → Located w d × (h' ≡ h)
unfolding locate
locate-Located w c d h h' e =
    let (cidr, h1, e1, r1) = bind-eq-ok (lift (network_cidr c)) with_cidr h e in
    let (network, h2, e2, r2) =
      bind-eq-ok (lift (wrap_error "bad cidr" (w.parse cidr))) (with_network cidr) h1 r1 in
    let (_, h3, e3, r3) =
      bind-eq-ok (lift (check_ips w network c.consul_server_ips))
        (λ _. lift (find_ip w network) >>= with_ip cidr) h2 r2 in
    let (ip, h4, e4, r4) = bind-eq-ok (lift (find_ip w network)) (with_ip cidr) h3 r3 in
    let parsed =
      wrap_error_ok "bad cidr" (w.parse cidr) network
        (ap (λ (r : Result w.Addr × List Event). r.0) e2) in
    let checked =
      check_ips-Inside w network c.consul_server_ips
        (ap (λ (r : Result (Unit {0}) × List Event). r.0) e3) in
    let found = find_ip-OwnAddress w network ip (ap (λ (r : Result String × List Event). r.0) e4) in
    let same : record c { network_cidr = cidr; server_ip = ip } ≡ d = ground arith in
    (subst (Located w) same (network, parsed, checked, found), ground arith)
  where
    with_ip : String → String → Exec Event YurtConfig
    with_ip cidr ip = pure (record c { network_cidr = cidr; server_ip = ip })

    with_network : String → w.Addr → Exec Event YurtConfig
    with_network cidr network =
        lift (check_ips w network c.consul_server_ips)
        >> (lift (find_ip w network) >>= with_ip cidr)

    with_cidr : String → Exec Event YurtConfig
    with_cidr cidr = lift (wrap_error "bad cidr" (w.parse cidr)) >>= with_network cidr
