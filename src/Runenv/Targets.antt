-- ===== src/Runenv/Targets.antt =====
-- `MonitoredEnv`: the addresses that Prometheus scrapes, by kind, and the files that list them.
pub mod Listing
use yurt.Prelude.{String, ◌<>◌, List, [], ◌∷◌, Option, none, some, Dict, lookup_or, insert}
use yurt.Effects.{Error, Result, ok, err}
use yurt.Types.{Ports, Node, address}

-- `addrs` is the map of `targetAddrsByKind`. `files` holds what was last written to each file of
-- the Prometheus configuration directory: the list under "targets" in the JSON text.
pub record MonitoredEnv : Type 0 where
  pub addrs : Dict (List String)
  pub files : Dict (List String)

-- What `NewMonitoredEnv` starts with.
abbrev pub new_monitored : MonitoredEnv
new_monitored = record { addrs = []; files = [] }

-- `addr, _ := node.Address("http")`: an error leaves the empty text.
unfoldable pub http_addr : Node → String
unfolding address
http_addr node = elim (address node "http") [ ok a ↦ a | err e ↦ "" ]

abbrev pub servers_file : String → String
servers_file kind = kind <> ".servers.json"

-- `MonitoredEnv.AllocNode`. `node` is what the parent's `AllocNode` returned beside its error, which
-- is dropped; `write` is the error of `WriteFile`.
unfoldable pub monitored_alloc :
    MonitoredEnv → Node → Ports → Option Error → Result Node × MonitoredEnv
monitored_alloc e node ports write =
    let targets = http_addr node ∷ lookup_or [] ports.kind e.addrs in
    elim write [
      | some x ↦ (err x, e)
      | none ↦ (
        ok node,
        record {
          addrs = insert ports.kind targets e.addrs;
          files = insert (servers_file ports.kind) targets e.files;
        },
      )
    ]
