-- ===== src/Examples/Agents.antt =====
-- consul/consul.go and nomad/nomad.go: agents with and without certificates.
use yurt.Prelude.{
  String, ◌≡◌, refl, ◌↔◌, none, some, [], ◌∷◌, Dict, lookup, contains, show_int, true, insert,
  lookup_or,
}
use yurt.Effects.{Result, ok}
use yurt.Types.{TlsConfigPem, port_of, no_tls}
use yurt.Commands.Files.{Json, string, RefersTo}
use yurt.Commands.Consul
use yurt.Commands.Consul.{ConsulConfig, args}
use yurt.Commands.Consul.TlsFiles.{consul_files-tls}
use yurt.Commands.Nomad
use yurt.Commands.Nomad.{NomadConfig, consul_config}

abbrev tls : TlsConfigPem
tls = record { ca = "ca"; cert = "certificate"; private_key = "key" }

abbrev agent : ConsulConfig
agent = Consul.new_config true ("10.0.0.2:8301" ∷ []) (some tls)

agent_has_http : contains agent.common.ports.name_order "http" ≡ true
unfolding Consul.new_config
agent_has_http = refl

http_port : (port_of agent.common.ports "http").number ≡ 8500
unfolding Consul.new_config lookup_or
http_port = refl

https_served : contains (args agent) "-https-port=8500" ≡ true
unfolding args Consul.new_config lookup_or show_int
https_served = refl

abbrev consul_encoder : Dict Json → Result String
consul_encoder cfg = ok "{}"

abbrev agent_files : Dict String
agent_files =
    insert "common.hcl" Consul.common_hcl
      (insert "tls.json" "{}" (Consul.tls_config agent.common.tls).files)

agent_files_there : Consul.files consul_encoder agent ≡ ok agent_files
unfolding Consul.files yurt.Commands.Files.add_tls_json Consul.tls_config Consul.new_config insert
agent_files_there = refl

consul_files-tls_example :
    RefersTo (Consul.tls_config agent.common.tls).cfg agent_files
    × (lookup "common.hcl" agent_files ≡ some Consul.common_hcl)
    × ((lookup "tls.json" agent_files ≡ none) ↔ (agent.common.tls ≡ no_tls))
consul_files-tls_example = consul_files-tls consul_encoder agent agent_files agent_files_there

abbrev client : NomadConfig
client = Nomad.new_config 0 "127.0.0.1:8500" (some tls)

abbrev nomad_encoder : Dict (Dict Json) → Result String
nomad_encoder cfg = ok "{}"

abbrev client_files : Dict String
client_files = insert "client.hcl" Nomad.client_hcl (
    insert "common.hcl" (Nomad.common_hcl client.common)
      (insert "tls.json" "{}" (Nomad.tls_config client.common.tls).files))

client_files_there : Nomad.files nomad_encoder client ≡ ok client_files
unfolding Nomad.files yurt.Commands.Files.add_tls_json Nomad.tls_config Nomad.new_config insert
client_files_there = refl
