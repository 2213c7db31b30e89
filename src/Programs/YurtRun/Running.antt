-- ===== src/Programs/YurtRun/Running.antt =====
-- cmd/yurt-run/main.go: what runs on a node when all goes well.
use yurt.Prelude.{
  if◌then◌else◌, ◌≡◌, ap, sym, ◌∙◌, String, List, ◌∷◌, arith, contains, str_eq, length, show_int,
  Bool-cases, inl, inr, All,
}
use mathlib.Core.Path.{subst}
use yurt.Effects.{Result, ok}
use yurt.Effects.Calls.{call, attempt, bind-eq-ok, ◌>>◌, pure}
use yurt.Commands.Command.{Command}
use yurt.Commands.Consul
use yurt.Commands.Nomad
use yurt.Programs.YurtRun.{
  YurtConfig, Flags, Event, Host, choose_config, locate, setup_tls, make_tls, use_stored, secure,
  wrap_error, run_agent, consul_command, nomad_command, main, is_consul_server, hostname, run,
  new_env, is_bundle, read_file, ca_file_of,
}
use yurt.Programs.YurtRun.Agents.{Located, locate-Located, Inside, OwnAddress}

-- The node stays where it is.
abbrev SameNode : YurtConfig → YurtConfig → Type 0
SameNode c d =
    (d.network_cidr ≡ c.network_cidr)
    × (d.consul_server_ips ≡ c.consul_server_ips)
    × (d.server_ip ≡ c.server_ip)

Located-same : (w : Host) (c d : YurtConfig) → SameNode c d → Located w c → Located w d
Located-same w c d s (network, parsed, inside, own) = (
  network,
  ap w.parse s.0 ∙ parsed,
  subst (λ (l : List String). All (Inside w network) l) (sym s.1) inside,
  subst (λ (t : String). OwnAddress w network t) (sym s.2) own,
)

make_tls-same :
    (w : Host) (c d : YurtConfig) (vault_addr ca_file : String) (h h' : List Event)
    → make_tls w c vault_addr ca_file h ≡ (ok d, h')
    → SameNode c d
unfolding make_tls
make_tls-same w c d vault_addr ca_file h h' e = (ground arith, ground arith, ground arith)

use_stored-same :
    (w : Host) (c d : YurtConfig) (vault_addr : String) (contents : Result String)
    (h h' : List Event)
    → use_stored w c vault_addr contents h ≡ (ok d, h')
    → SameNode c d
unfolding use_stored
use_stored-same w c d vault_addr contents h h' e = elim (Bool-cases (is_bundle w contents)) [
  | inl old ↦ (ground arith, ground arith, ground arith)
  | inr new ↦ make_tls-same w c d vault_addr (ca_file_of c) h h' (rw new at e)
]

secure-same :
    (w : Host) (f : Flags) (c d : YurtConfig) (h h' : List Event)
    → secure w f c h ≡ (ok d, h')
    → SameNode c d
unfolding secure setup_tls
secure-same w f c d h h' e = elim (Bool-cases (str_eq f.vault_addr "")) [
  | inl absent ↦ (ground arith, ground arith, ground arith)
  | inr given ↦
      let (contents, h1, e1, r1) =
        bind-eq-ok (attempt (call (read_file (ca_file_of c)) (w.read_file (ca_file_of c))))
          (use_stored w c f.vault_addr) h (rw given at e) in
      use_stored-same w c d f.vault_addr contents h1 h' r1
]

run_agent_ok :
    (w : Host) (command : Command) (h h' : List Event)
    → run_agent w command h ≡ (ok tt, h')
    → (name : String) × (h' ≡ run command name ∷ hostname ∷ h)
unfolding run_agent
run_agent_ok w command h h' e =
    let (name, h1, e1, r1) =
      bind-eq-ok (call hostname (λ h. wrap_error "error getting hostname" (w.hostname h))) _ h e in
    (name, ground arith)

-- The last calls run a Consul agent and then a Nomad agent; both are servers exactly when the own
-- address is one of those of the Consul servers.
abbrev pub Running : YurtConfig → List Event → Type 0
Running c h' =
    (h1 : List Event) × (consul_name : String) × (nomad_name : String) × (h'
      ≡ run
          (Command.nomad (
            Nomad.new_config
              (if contains c.consul_server_ips c.server_ip then length c.consul_server_ips else 0)
              "127.0.0.1:8500" c.tls_config))
          nomad_name
        ∷ hostname
        ∷ run
            (Command.consul (
              Consul.new_config (contains c.consul_server_ips c.server_ip) c.consul_server_ips
                c.tls_config))
            consul_name
        ∷ hostname
        ∷ h1)

-- Both agents, and the configuration that they were made from.
agents_ok :
    (w : Host) (c d : YurtConfig) (h h' : List Event)
    → (run_agent w (consul_command c) >> (run_agent w (nomad_command c) >> pure c)) h ≡ (ok d, h')
    → (d ≡ c) × Running c h'
unfolding consul_command nomad_command is_consul_server Consul.def_ports show_int
agents_ok w c d h h' e =
    let (_, h1, e1, r1) =
      bind-eq-ok (run_agent w (consul_command c)) (λ _. run_agent w (nomad_command c) >> pure c) h
        e in
    let (_, h2, e2, r2) = bind-eq-ok (run_agent w (nomad_command c)) (λ _. pure c) h1 r1 in
    let (consul_name, trace1) = run_agent_ok w (consul_command c) h h1 e1 in
    let (nomad_name, trace2) = run_agent_ok w (nomad_command c) h1 h2 e2 in
    (ground arith, (h, consul_name, nomad_name, ground arith))

-- When yurt-run gets as far as its wait, its address is that of an interface in the network that was
-- configured or derived, all Consul servers are in that network too, and the last calls have run a
-- Consul agent that joins them and a Nomad agent; both are servers exactly when the own address is
-- one of theirs, and Nomad then expects as many servers as there are addresses.
pub main_ok :
    (w : Host) (f : Flags) (h h' : List Event) (c : YurtConfig)
    → main w f h ≡ (ok c, h')
    → Located w c × Running c h'
unfolding main
main_ok w f h h' c e =
    let (c1, h1, e1, r1) = bind-eq-ok (choose_config w f) _ h e in
    let (c2, h2, e2, r2) = bind-eq-ok (locate w c1) _ h1 r1 in
    let (c3, h3, e3, r3) = bind-eq-ok (secure w f c2) _ h2 r2 in
    let (_, h4, e4, r4) =
      bind-eq-ok
        (call (new_env f.data_dir) (λ h. wrap_error "error creating env" (w.new_env f.data_dir h)))
        (λ _. run_agent w (consul_command c3) >> (run_agent w (nomad_command c3) >> pure c3)) h3
        r3 in
    let (same, running) = agents_ok w c3 c h4 h' r4 in
    let located =
      Located-same w c2 c3 (secure-same w f c2 c3 h2 h3 e3) (locate-Located w c1 c2 h1 h2 e2).0 in
    subst (λ (x : YurtConfig). Located w x × Running x h') (sym same) (located, running)
