-- ===== src/Runners/Exec.antt =====
-- runner/exec/exec.go: a command as a process of this machine.
pub mod Starting
pub mod Endpoints
use yurt.Prelude.{
  ℕ, String, ◌<>◌, Bool, List, [], ◌∷◌, Option, none, some, show_int, str_eq, contains_text, ◌==◌,
  if◌then◌else◌,
}
use yurt.Effects.{Error, Result, ok, err, external, no_port_defined}
use yurt.Effects.Calls.{Exec, pure, raise, lift, call, ◌>>=◌, ◌>>◌}
use yurt.Types.{port_of}
use yurt.Runner.{Config, ApiConfig, join}
use yurt.Commands.Command.{Command, Encoders, with_config, config, files, args, env}
use yurt.Runners.Files.{
  Event, Answers, create_file, start_process, cancel, nothing, make_dirs, write_configs,
}

pub record ExecRunner : Type 0 where
  pub command : Command
  pub config : Config
  pub bin_path : String

-- Of the harness, the part that its methods read.
pub record ExecHarness : Type 0 where
  pub config : Config

-- `cmd.Start()`, and what follows a failure
launch : Answers → String → Command → Config → Exec Event ExecHarness
launch o bin_path command cfg h =
    let (r, h') =
      call (start_process bin_path (args command) (env command) cfg.config_dir) o.start_process h in
    elim r [ err e ↦ (err e, cancel ∷ h') | ok _ ↦ (ok (record { config = config command }), h') ]

-- `output, err = os.Create(logname)`, if a log is named
open_log : Answers → String → Exec Event (Unit {0})
open_log o log_name =
    if str_eq log_name "" then nothing else call (create_file log_name) (o.create_file log_name)

-- `Start`. An error of `Files` is one that ends the process.
unfoldable pub start : Answers → Encoders → ExecRunner → String → Exec Event ExecHarness
unfolding launch open_log
start o encoders r log_name = do
  make_dirs o (r.config.data_dir ∷ r.config.log_dir ∷ [])
  let command = with_config r.command r.config
  contents ← lift (files encoders command)
  write_configs o r.config.config_dir contents
  open_log o log_name
  launch o r.bin_path command r.config

-- `Endpoint`; its second argument is not read.
unfoldable pub endpoint : ExecHarness → String → Result ApiConfig
endpoint h name =
    let port = port_of h.config.ports name in
    let plain = str_eq h.config.tls.cert "" in
    if port.number == 0
    then err (no_port_defined name)
    else ok (record {
      scheme = if plain then name else (if str_eq name "http" then "https" else name);
      host = "127.0.0.1:" <> show_int port.number;
      ca_file = if plain then "" else join h.config.config_dir "ca.pem";
    })

-- The text of an error that a library returned.
abbrev error_text : Error → String
error_text (external t) = t
error_text _ = ""

-- `Wait`, from what `cmd.Wait()` returned: a process that was killed has ended well.
unfoldable pub wait : Option Error → Option Error
wait none = none
wait (some e) = if contains_text (error_text e) "signal: killed" then none else some e
