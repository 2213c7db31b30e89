-- ===== src/Binaries/LocalBuild/Roots.antt =====
-- binaries/binaries.go, `buildLocalBin`: which project is built, and with which variables.
use yurt.Prelude.{
  String, Bool, true, false, ◌≡◌, refl, ◌∙◌, sym, ap, List, [], ◌∷◌, ◌++◌, All, arith, Bool-cases,
  inl, inr, if◌then◌else◌, ◌⊎◌,
}
use mathlib.Core.Path.{subst}
use yurt.Effects.{Result, ok}
use yurt.Effects.Calls.{call, pure, bind-eq-ok}
use yurt.Runner.{join}
use yurt.Binaries.LocalBuild.{
  Found, missing, directory, other, failed, GoBuild, Event, PathNames, Answers, path_text, is_dir,
  is_file, ask_dir, has_module, is_project_root, walk_up, project_root, is_build_setting, inherited,
  build_settings, go_path, build_local_bin, getwd, environ, look_path, run,
}

-- A directory named .git and a file named go.mod exist.
abbrev pub IsProject : (String → Found) → String → Type 0
IsProject fs dir = (fs (join dir ".git") ≡ directory) × (fs (join dir "go.mod") ≡ other)

-- The innermost project on the way from a directory up to the root, which is none itself.
pub data Nearest (fs : String → Found) : PathNames → PathNames → Type 0 where
  here :
      (name : String) (names : PathNames)
      → IsProject fs (path_text (name ∷ names))
      → Nearest fs (name ∷ names) (name ∷ names)
  above :
      (name : String) (names root : PathNames)
      → ¬ IsProject fs (path_text (name ∷ names))
      → Nearest fs names root
      → Nearest fs (name ∷ names) root

is_dir-true : (f : Found) → is_dir f ≡ ok true → f ≡ directory
is_dir-true missing e = absurd (ground arith)
is_dir-true directory e = refl
is_dir-true other e = absurd (ground arith)
is_dir-true (failed x) e = absurd (ground arith)

is_file-true : (f : Found) → is_file f ≡ ok true → f ≡ other
is_file-true missing e = absurd (ground arith)
is_file-true directory e = absurd (ground arith)
is_file-true other e = refl
is_file-true (failed x) e = absurd (ground arith)

has_module-true :
    (o : Answers) (dir : String) (git : Bool) (h h1 : List Event)
    → has_module o dir git h ≡ (ok true, h1)
    → (git ≡ true) × (o.stat (join dir "go.mod") h ≡ other)
has_module-true o dir true h h1 e = (
  refl,
  is_file-true (o.stat (join dir "go.mod") h) (ap (λ (r : Result Bool × List Event). r.0) e),
)
has_module-true o dir false h h1 e = absurd (ground arith)

has_module-false :
    (o : Answers) (dir : String) (git : Bool) (h h1 : List Event)
    → has_module o dir git h ≡ (ok false, h1)
    → (git ≡ false) ⊎ (is_file (o.stat (join dir "go.mod") h) ≡ ok false)
has_module-false o dir true h h1 e = inr (ap (λ (r : Result Bool × List Event). r.0) e)
has_module-false o dir false h h1 e = inl refl

module _ (fs : String → Found) (o : Answers)
    (stable : (path : String) (h : List Event) → o.stat path h ≡ fs path) where
  is_project_root-true :
      (dir : String) (h h1 : List Event)
      → is_project_root o dir h ≡ (ok true, h1)
      → IsProject fs dir
  unfolding is_project_root
  is_project_root-true dir h h1 e =
      let (git, h2, e1, r1) = bind-eq-ok (ask_dir o (join dir ".git")) (has_module o dir) h e in
      let (is_git, mod_file) = has_module-true o dir git h2 h1 r1 in
      (
        sym (stable (join dir ".git") h)
            ∙ is_dir-true (o.stat (join dir ".git") h)
                (ap (λ (r : Result Bool × List Event). r.0) e1 ∙ ap (λ (b : Bool). ok b) is_git),
        sym (stable (join dir "go.mod") h2) ∙ mod_file,
      )

  is_project_root-false :
      (dir : String) (h h1 : List Event)
      → is_project_root o dir h ≡ (ok false, h1)
      → ¬ IsProject fs dir
  unfolding is_project_root
  is_project_root-false dir h h1 e p =
      let (git, h2, e1, r1) = bind-eq-ok (ask_dir o (join dir ".git")) (has_module o dir) h e in
      let git_there : is_dir (o.stat (join dir ".git") h) ≡ ok true =
        ap is_dir (stable (join dir ".git") h ∙ p.0) in
      let mod_there : is_file (o.stat (join dir "go.mod") h2) ≡ ok true =
        ap is_file (stable (join dir "go.mod") h2 ∙ p.1) in
      elim (has_module-false o dir git h2 h1 r1) [
        | inl no_git ↦ ground arith
        | inr no_module ↦ ground arith
      ]

  walk_up-Nearest :
      (names root : PathNames) (h h' : List Event)
      → walk_up o names h ≡ (ok root, h')
      → Nearest fs names root
  unfolding walk_up
  walk_up-Nearest [] root h h' e = absurd (ground arith)
  walk_up-Nearest (name ∷ names) root h h' e =
      let (found, h1, e1, r1) = bind-eq-ok (is_project_root o (path_text (name ∷ names))) _ h e in
      next found h1 e1 r1 (λ h2 q. walk_up-Nearest names root h2 h' q)
    where
      next :
          (found : Bool) (h1 : List Event)
          → is_project_root o (path_text (name ∷ names)) h ≡ (ok found, h1)
          → (if found then pure (name ∷ names) else walk_up o names) h1 ≡ (ok root, h')
          → ((h2 : List Event) → walk_up o names h2 ≡ (ok root, h') → Nearest fs names root)
          → Nearest fs (name ∷ names) root
      next true h1 e1 r1 later =
          subst (Nearest fs (name ∷ names)) (same r1)
            (here name names (is_project_root-true (path_text (name ∷ names)) h h1 e1))
        where
          same : pure (name ∷ names) h1 ≡ (ok root, h') → name ∷ names ≡ root
          same q = ground arith
      next false h1 e1 r1 later =
          above name names root (is_project_root-false (path_text (name ∷ names)) h h1 e1)
            (later h1 r1)

inherited-All : (env : List String) → All (λ e. is_build_setting e ≡ false) (inherited env)
unfolding inherited
inherited-All [] = tt
inherited-All (e ∷ env) = elim (Bool-cases (is_build_setting e)) [
  | inl p ↦ rw p (inherited-All env)
  | inr p ↦ rw p (p, inherited-All env)
]

-- A build of the program `name` in its directory of the project at `root`.
abbrev pub Builds : GoBuild → PathNames → String → String → String → List String → Type 0
Builds b root name os arch kept =
    (b.dir ≡ join (join (path_text root) "cmd") name)
    × (b.env ≡ kept ++ build_settings os arch)
    × All (λ e. is_build_setting e ≡ false) kept

-- While the file system does not change: when `buildLocalBin` succeeds, its last call was a build
-- that succeeded; the path it returns is the name in the work directory, which the build writes to;
-- the build ran in cmd/name of the innermost project on the way up from the working directory; and
-- its environment sets the system, the architecture, the modules and the flags last, with none of
-- the variables that name them, or cgo, before.
pub build_local_bin_ok :
    (fs : String → Found) (o : Answers)
    → ((path : String) (h : List Event) → o.stat path h ≡ fs path)
    → (work_dir name os arch path : String) (h h' : List Event)
    → build_local_bin o work_dir name os arch h ≡ (ok path, h')
    → (path ≡ join work_dir name)
      × ((cwd : PathNames) × (root : PathNames) × (o.getwd h ≡ ok cwd)
          × Nearest fs cwd root
          × ((b : GoBuild) × (h1 : List Event) × (kept : List String) × (h' ≡ run b ∷ h1)
              × (o.run b h1 ≡ ok tt)
              × (b.dest ≡ path)
              × Builds b root name os arch kept))
unfolding build_local_bin project_root
build_local_bin_ok fs o stable work_dir name os arch path h h' e =
    let (root, h1, e1, r1) = bind-eq-ok (project_root o) _ h e in
    let (cwd, h2, e2, r2) = bind-eq-ok (call getwd o.getwd) (walk_up o) h e1 in
    let (program, h3, e3, r3) =
      bind-eq-ok (call (look_path "go") (λ t. go_path (o.look_path "go" t))) _ h1 r1 in
    let b : GoBuild = record {
      program = program;
      dest = join work_dir name;
      dir = join (join (path_text root) "cmd") name;
      env = inherited (o.environ h3) ++ build_settings os arch;
    } in
    let (_, h5, e5, r5) = bind-eq-ok (call (run b) (o.run b)) _ (environ ∷ h3) r3 in
    (
      ground arith,
      (
        cwd,
        root,
        ground arith,
        walk_up-Nearest fs o stable cwd root h2 h1 r2,
        (
          b,
          environ ∷ h3,
          inherited (o.environ h3),
          ground arith,
          ground arith,
          ground arith,
          (refl, refl, inherited-All (o.environ h3)),
        ),
      ),
    )
