-- ===== src/Binaries/Fetching/Sources.antt =====
-- binaries/binaries.go, `Fetch`: where a path that it returns comes from.
use yurt.Prelude.{
  ℕ, String, ◌≡◌, refl, ◌<>◌, List, ◌∷◌, lookup, Option, none, some, Bool, true, false, arith,
}
use yurt.Effects.{ok}
use yurt.Effects.Calls.{lift, call, bind-eq-ok}
use yurt.Runner.{join}
use yurt.Binaries.{RegistryEntry, registry, version_or, archive, source_url, sum_url}
use yurt.Binaries.Trees.{Leads, dldir_to_binary-Leads}
use yurt.Binaries.Fetching.{
  Event, Answers, fetch, fetch_entry, choose, use_or_unpack, unpack_again, search, ask_stat,
  existing, read_tree, wrap_error, move, remove_all, unpack, download,
}

-- The path was found in the tree that was read by the last call, under the directory.
abbrev pub FoundUnder : Answers → String → String → List Event → String → Type 0
FoundUnder o package_name dir h path =
    (h1 : List Event) × (h ≡ read_tree dir ∷ h1) × Leads package_name dir (o.read_tree dir h1) path

search_ok :
    (o : Answers) (dir package_name path : String) (h h' : List Event)
    → search o dir package_name h ≡ (ok path, h')
    → FoundUnder o package_name dir h' path
search_ok o dir package_name path h h' e = (
  h,
  ground arith,
  dldir_to_binary-Leads dir package_name path (o.read_tree dir h) (ground arith),
)

unpack_again_ok :
    (o : Answers) (package_name local_package dir path : String) (h h' : List Event)
    → unpack_again o package_name local_package dir h ≡ (ok path, h')
    → FoundUnder o package_name dir h' path
unfolding unpack_again
unpack_again_ok o package_name local_package dir path h h' e =
    let (_, h1, _, r1) = bind-eq-ok (call (remove_all dir) (o.remove_all dir)) _ h e in
    let (_, h2, _, r2) =
      bind-eq-ok (call (remove_all (dir <> ".tmp")) (o.remove_all (dir <> ".tmp"))) _ h1 r1 in
    let (_, h3, _, r3) =
      bind-eq-ok (call (unpack local_package (dir <> ".tmp")) (λ h. wrap_error (o.unpack h))) _ h2
        r2 in
    let (_, h4, _, r4) =
      bind-eq-ok (move o (dir <> ".tmp") dir) (λ _. search o dir package_name) h3 r3 in
    search_ok o dir package_name path h4 h' r4

choose_ok :
    (o : Answers) (package_name local_package dir path : String) (unchanged : Bool)
    (h h' : List Event)
    → choose o package_name local_package dir unchanged h ≡ (ok path, h')
    → FoundUnder o package_name dir h' path
unfolding choose
choose_ok o package_name local_package dir path true h h' e =
    search_ok o dir package_name path h h' e
choose_ok o package_name local_package dir path false h h' e =
    unpack_again_ok o package_name local_package dir path h h' e

use_or_unpack_ok :
    (o : Answers) (package_name local_package dir path : String) (before : Option ℕ) (after : ℕ)
    (h h' : List Event)
    → use_or_unpack o package_name local_package dir before after h ≡ (ok path, h')
    → FoundUnder o package_name dir h' path
unfolding use_or_unpack
use_or_unpack_ok o package_name local_package dir path before after h h' e =
    choose_ok o package_name local_package dir path _ _ h' e

module _ (o : Answers) (work_dir : String) (entry : RegistryEntry)
    (package_name os arch version : String) where
  abbrev local_package : String
  local_package =
      join (join work_dir package_name) (archive entry.source package_name version os arch)

  abbrev dir : String
  dir = join (join work_dir package_name) version

  abbrev from : String
  from =
      source_url entry.source package_name version os arch
      <> ("?checksum=file:" <> sum_url entry.source package_name version)

  fetch_entry_ok :
      (path : String) (h h' : List Event)
      → fetch_entry o work_dir entry package_name os arch version h ≡ (ok path, h')
      → FoundUnder o package_name dir h' path
  unfolding fetch_entry
  fetch_entry_ok path h h' e =
      let (_, h1, _, r1) =
        bind-eq-ok (lift (o.parse_url (source_url entry.source package_name version os arch))) _ h
          e in
      let (before, h2, _, r2) = bind-eq-ok (ask_stat o local_package) _ h1 r1 in
      let (_, h3, _, r3) =
        bind-eq-ok
          (call (download from local_package) (λ h. wrap_error (o.download from local_package h))) _
          h2 r2 in
      let (found, h4, _, r4) = bind-eq-ok (ask_stat o local_package) _ h3 r3 in
      let (after, h5, _, r5) =
        bind-eq-ok (lift (existing found)) (use_or_unpack o package_name local_package dir before)
          h4 r4 in
      use_or_unpack_ok o package_name local_package dir path before after h5 h' r5

-- A path that `Fetch` returns belongs to a package of the registry, and leads to an executable file
-- of its name in the directory of the package and the version, which is the registry's if none is
-- asked for, as the last call has read it.
pub fetch_ok :
    (o : Answers) (work_dir package_name os arch version path : String) (h h' : List Event)
    → fetch o work_dir package_name os arch version h ≡ (ok path, h')
    → (entry : RegistryEntry) × (lookup package_name registry ≡ some entry)
      × FoundUnder o package_name
          (join (join work_dir package_name) (version_or version entry))
          h'
          path
unfolding fetch
fetch_ok o work_dir package_name os arch version path h h' e =
    registered (lookup package_name registry) refl
  where
    registered :
        (v : Option RegistryEntry)
        → lookup package_name registry ≡ v
        → (entry : RegistryEntry) × (lookup package_name registry ≡ some entry)
          × FoundUnder o package_name
              (join (join work_dir package_name) (version_or version entry))
              h'
              path
    registered none q = absurd (ground arith)
    registered (some entry) q = (
      entry,
      q,
      fetch_entry_ok o work_dir entry package_name os arch (version_or version entry) path h h'
          (ground arith),
    )
