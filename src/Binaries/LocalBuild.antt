-- ===== src/Binaries/LocalBuild.antt =====
-- binaries/binaries.go: `projectRoot` and `buildLocalBin`, the build of yurt-run out of the project.
pub mod Roots
use yurt.Prelude.{
  String, ◌<>◌, Bool, true, false, ◌||◌, List, [], ◌∷◌, ◌++◌, has_prefix, if◌then◌else◌,
}
use yurt.Effects.{Error, Result, ok, err, message, wrapped}
use yurt.Effects.Calls.{Exec, pure, raise, call, ◌>>=◌, ◌>>◌}
use yurt.Runner.{join}

-- What `os.Stat` finds: nothing, an error of another kind, a directory or something else.
pub data Found : Type 0 where
  missing directory other : Found
  failed : Error → Found

-- The command `go build`, with its directory and environment.
pub record GoBuild : Type 0 where
  pub program : String
  pub dest : String
  pub dir : String
  pub env : List String

pub data Event : Type 0 where
  getwd environ : Event
  stat look_path : String → Event
  run : GoBuild → Event

-- The names of the directories on a path, the innermost first. `os.Getwd` gives such a path.
abbrev pub PathNames : Type 0
PathNames = List String

-- The answers of the operating system.
pub record Answers : Type 0 where
  pub getwd : List Event → Result PathNames
  pub stat : String → List Event → Found
  pub look_path : String → List Event → Result String
  pub environ : List Event → List String
  pub run : GoBuild → List Event → Result (Unit {0})

-- The text of a path below the root; that of the root is only used in front of a name.
unfoldable pub path_text : PathNames → String
path_text [] = ""
path_text (name ∷ names) = path_text names <> ("/" <> name)

-- What a `Stat` says about a directory, and about a file.
abbrev pub is_dir : Found → Result Bool
is_dir missing = ok false
is_dir directory = ok true
is_dir other = ok false
is_dir (failed e) = err e

abbrev pub is_file : Found → Result Bool
is_file missing = ok false
is_file directory = ok false
is_file other = ok true
is_file (failed e) = err e

abbrev pub ask_dir : Answers → String → Exec Event Bool
ask_dir o path = call (stat path) (λ h. is_dir (o.stat path h))

abbrev pub ask_file : Answers → String → Exec Event Bool
ask_file o path = call (stat path) (λ h. is_file (o.stat path h))

abbrev pub has_module : Answers → String → Bool → Exec Event Bool
has_module o dir false = pure false
has_module o dir true = ask_file o (join dir "go.mod")

-- `isProjectRoot`
unfoldable pub is_project_root : Answers → String → Exec Event Bool
is_project_root o dir = ask_dir o (join dir ".git") >>= has_module o dir

-- The loop, from a directory up to the root of the file system, which is not asked about. It ends
-- since `filepath.Dir` takes a name away.
unfoldable pub walk_up : Answers → PathNames → Exec Event PathNames
walk_up o [] = raise (message "no project root found (looked for .git dir and go.mod file)")
walk_up o (name ∷ names) = is_project_root o (path_text (name ∷ names)) >>= λ found.
    if found then pure (name ∷ names) else walk_up o names

-- `projectRoot`
unfoldable pub project_root : Answers → Exec Event PathNames
project_root o = call getwd o.getwd >>= walk_up o

-- The variables that the build sets itself.
abbrev pub is_build_setting : String → Bool
is_build_setting e =
    has_prefix e "GOOS="
    || (has_prefix e "GOARCH="
        || (has_prefix e "GO111MODULE="
            || (has_prefix e "GOFLAGS=" || has_prefix e "CGO_ENABLED=")))

-- The loop over the environment.
unfoldable pub inherited : List String → List String
inherited [] = []
inherited (e ∷ rest) = let later = inherited rest in if is_build_setting e then later else e ∷ later

abbrev pub build_settings : String → String → List String
build_settings os arch =
    ("GOOS=" <> os) ∷ ("GOARCH=" <> arch) ∷ "GO111MODULE=on" ∷ "GOFLAGS=-mod=" ∷ []

abbrev pub go_path : Result String → Result String
go_path (ok path) = ok path
go_path (err e) = err (wrapped "can't find 'go' in path" e)

-- `cmd.Run()`, and the path of the result.
abbrev pub run_build : Answers → GoBuild → Exec Event String
run_build o b = call (run b) (o.run b) >> pure b.dest

-- `buildLocalBin`
unfoldable pub build_local_bin : Answers → String → String → String → String → Exec Event String
build_local_bin o work_dir name os arch = do
  root ← project_root o
  program ← call (look_path "go") (λ h. go_path (o.look_path "go" h))
  env ← call environ (λ h. ok (o.environ h))
  run_build o (record {
    program = program;
    dest = join work_dir name;
    dir = join (join (path_text root) "cmd") name;
    env = inherited env ++ build_settings os arch;
  })
