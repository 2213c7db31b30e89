-- ===== src/Runners/Files.antt =====
-- util/util.go, `WriteConfig`, and the loops of both runners that make directories and write files.
use yurt.Prelude.{String, List, [], ◌∷◌, Dict, has_suffix, str_eq, if◌then◌else◌}
use yurt.Effects.{Result}
use yurt.Effects.Calls.{Exec, pure, call, ◌>>◌}
use yurt.Runner.{join}
use yurt.Docker.Container.{RunOptions}

-- What a start does outside the program: the file system, the process or the container, the context.
pub data Event : Type 0 where
  mkdir_all : String → Event
  parse_pem : String → Event
  write_file : String → String → Event
  create_file : String → Event
  start_process : String → List String → List String → String → Event
  list_containers : String → Event
  remove_container : String → Event
  start_container : RunOptions → Event
  cancel : Event

-- The answers of the outside: each depends on all that happened before.
pub record Answers : Type 0 where
  pub mkdir_all : String → List Event → Result (Unit {0})
  pub parse_pem : String → List Event → Result (Unit {0})
  pub write_file : String → List Event → Result (Unit {0})
  pub create_file : String → List Event → Result (Unit {0})
  pub start_process : List Event → Result (Unit {0})

abbrev pub nothing : Exec Event (Unit {0})
nothing = pure tt

-- `WriteConfig`: a PEM file is parsed first.
unfoldable pub write_config : Answers → String → String → String → Exec Event (Unit {0})
write_config o dir name contents = do
  call (mkdir_all dir) (o.mkdir_all dir)
  if has_suffix name ".pem" then call (parse_pem contents) (o.parse_pem contents) else nothing
  call (write_file (join dir name) contents) (o.write_file (join dir name))

-- `for name, contents := range command.Files()`
unfoldable pub write_configs : Answers → String → Dict String → Exec Event (Unit {0})
unfolding write_config
write_configs o dir [] = nothing
write_configs o dir ((name, contents) ∷ files) = do
  write_config o dir name contents
  write_configs o dir files

-- `for _, dir := range […]string{…}`, where an empty name is passed over
unfoldable pub make_dirs : Answers → List String → Exec Event (Unit {0})
make_dirs o [] = nothing
make_dirs o (dir ∷ dirs) = do
  if str_eq dir "" then nothing else call (mkdir_all dir) (o.mkdir_all dir)
  make_dirs o dirs
