-- ===== src/Runenv/Launching/Addresses.antt =====
-- runenv/runenv.go and runner/exec/exec.go: the endpoints of a node that runs.
use yurt.Prelude.{String, ◌≡◌, List, ap, arith}
use yurt.Effects.{Result, ok, err, wrapped, no_address}
use yurt.Effects.Calls.{Exec, lift, bind-eq-ok}
use yurt.Types.{Node, address}
use yurt.Runner.{Config}
use yurt.Commands.Command
use yurt.Commands.Command.{Command, Encoders}
use yurt.Runners.Files.{Event, Answers}
use yurt.Runners.Exec.{ExecHarness, ExecRunner, endpoint, start}
use yurt.Runners.Exec.Starting.{start-config}
use yurt.Runners.Exec.Endpoints.{endpoint-address}
use yurt.Runenv.Launching.{ExecEnv, exec_run, exec_config, log_name, wrap_start}

wrap_start_ok :
    {A : Type 0} (m : Exec Event A) (h h' : List Event) (a : A)
    → wrap_start m h ≡ (ok a, h')
    → m h ≡ (ok a, h')
wrap_start_ok {A} m h h' a e = unwrap (m h) e
  where
    unwrap :
        (r : Result A × List Event)
        → ◌≡◌ {A = Result A × List Event}
            (elim r.0 [
              | ok b ↦ (ok b, r.1)
              | err x ↦ (err (wrapped "error starting server" x), r.1)
            ])
            (ok a, h')
        → r ≡ (ok a, h')
    unwrap (ok b, h1) k = k
    unwrap (err x, h1) k = absurd (ground arith)

-- A node on the local host that an `ExecEnv` runs is reached where it says: the harness has an
-- endpoint for a service exactly if the node has an address for it, and they are the same.
pub exec_run-address :
    (o : Answers) (encoders : Encoders) (get : String → Result String) (env : ExecEnv)
    (now : String) (command : Command) (node : Node) (h h' : List Event) (x : ExecHarness)
    (name : String)
    → exec_run o encoders get env now command node h ≡ (ok x, h')
    → node.host ≡ "127.0.0.1"
    → address node name
      ≡ (elim (endpoint x name) [ err e ↦ err (no_address name) | ok a ↦ ok a.host ])
unfolding exec_run
exec_run-address o encoders get env now command node h h' x name e local =
    let (bin, h1, _, rest) = bind-eq-ok (lift (get (Command.name command))) _ h e in
    let runner : ExecRunner = record {
      command = command;
      config = exec_config env command node;
      bin_path = bin;
    } in
    let log = log_name env node now in
    let begun = wrap_start_ok (start o encoders runner log) h1 h' x rest in
    let same = start-config o encoders runner log h1 h' x begun in
    endpoint-address x node name (ap (λ (c : Config). c.ports) same) local
