-- ===== src/Examples/LocalBuild.antt =====
-- binaries/binaries.go: the build of yurt-run from a directory inside the project.
use yurt.Prelude.{String, ◌≡◌, refl, if◌then◌else◌, str_eq, List, [], ◌∷◌}
use yurt.Effects.{ok}
use yurt.Runner.{join}
use yurt.Binaries.LocalBuild.{
  Found, missing, directory, other, GoBuild, Event, PathNames, Answers, build_local_bin,
  is_build_setting, build_settings, run,
}
use yurt.Binaries.LocalBuild.Roots.{Nearest, Builds, build_local_bin_ok}

-- The project is at /home/yurt.
abbrev files : String → Found
files path =
    if str_eq path "/home/yurt/.git"
    then directory
    else if str_eq path "/home/yurt/go.mod"
    then other
    else missing

abbrev answers : Answers
answers = record {
  getwd = λ h. ok ("cluster" ∷ "yurt" ∷ "home" ∷ []);
  stat = λ path h. files path;
  look_path = λ program h. ok "/bin/go";
  environ = λ h. "HOME=/root" ∷ "GOOS=plan9" ∷ "GOFLAGS=-v" ∷ [];
  run = λ b h. ok tt;
}

abbrev binary : String
binary = "/w/yurt-run"

abbrev calls : List Event
calls = (build_local_bin answers "/w" "yurt-run" "linux" "amd64" []).1

built : build_local_bin answers "/w" "yurt-run" "linux" "amd64" [] ≡ (ok binary, calls)
unfolding build_local_bin yurt.Binaries.LocalBuild.project_root yurt.Binaries.LocalBuild.walk_up
    yurt.Binaries.LocalBuild.is_project_root yurt.Binaries.LocalBuild.path_text
built = refl

build_local_bin_ok_example :
    (binary ≡ join "/w" "yurt-run")
    × ((cwd : PathNames) × (root : PathNames) × (answers.getwd [] ≡ ok cwd)
        × Nearest files cwd root
        × ((b : GoBuild) × (h1 : List Event) × (kept : List String) × (calls ≡ run b ∷ h1)
            × (answers.run b h1 ≡ ok tt)
            × (b.dest ≡ binary)
            × Builds b root "yurt-run" "linux" "amd64" kept))
build_local_bin_ok_example =
    build_local_bin_ok files answers (λ path h. refl) "/w" "yurt-run" "linux" "amd64" binary []
      calls built
