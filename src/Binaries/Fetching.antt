-- ===== src/Binaries/Fetching.antt =====
-- `Fetch` and `GetOSArch`: what is downloaded, unpacked and remembered.
pub mod Caching
pub mod Sources
use yurt.Prelude.{
  ℕ, String, ◌<>◌, Bool, true, false, ◌&&◌, ◌==◌, List, [], ◌∷◌, Dict, lookup, insert, Option, none,
  some, str_eq, if◌then◌else◌,
}
use yurt.Effects.{Error, Result, ok, err, message, wrapped, unknown_package}
use yurt.Effects.Calls.{Exec, pure, raise, lift, call, attempt, ◌>>=◌, ◌>>◌}
use yurt.Runner.{join}
use yurt.Binaries.{registry, RegistryEntry, source_url, sum_url, archive, version_or}
use yurt.Binaries.Trees.{Dir, dldir_to_binary}

pub data Event : Type 0 where
  stat : String → Event
  -- the source, with the URL of the checksums, and the target
  download : String → String → Event
  remove_all : String → Event
  unpack : String → String → Event
  rename : String → String → Event
  read_tree : String → Event
  -- `buildLocalBin`: the name, the system and the architecture
  build : String → String → String → Event

-- The answers of the file system, of go-getter and of the Go compiler. A `stat` gives the time of
-- modification, or nothing for a file that does not exist.
pub record Answers : Type 0 where
  pub parse_url : String → Result (Unit {0})
  pub stat : String → List Event → Result (Option ℕ)
  pub download : String → String → List Event → Result (Unit {0})
  pub remove_all : String → List Event → Result (Unit {0})
  pub unpack : List Event → Result (Unit {0})
  pub rename : List Event → Result (Unit {0})
  pub read_tree : String → List Event → Dir
  pub build : String → String → String → List Event → Result String

abbrev pub wrap_error : {A : Type 0} → Result A → Result A
wrap_error (ok a) = ok a
wrap_error (err e) = err (wrapped "go-getter error" e)

abbrev pub ask_stat : Answers → String → Exec Event (Option ℕ)
ask_stat o path = call (stat path) (o.stat path)

-- A file that must exist.
abbrev pub existing : Option ℕ → Result ℕ
existing none = err (message "file does not exist")
existing (some time) = ok time

-- `err == nil` of a `Stat`
abbrev pub exists : Result (Option ℕ) → Bool
exists (ok (some time)) = true
exists _ = false

abbrev pub same_time : Option ℕ → ℕ → Bool
same_time none after = false
same_time (some before) after = before == after

abbrev pub search : Answers → String → String → Exec Event String
search o dir package_name h =
    (dldir_to_binary dir package_name (o.read_tree dir h), read_tree dir ∷ h)

-- `err = os.Rename(…)`: the error is not looked at.
abbrev pub move : Answers → String → String → Exec Event (Result (Unit {0}))
move o from to = attempt (call (rename from to) o.rename)

-- What follows when the archive is new or was never unpacked.
unfoldable pub unpack_again : Answers → String → String → String → Exec Event String
unpack_again o package_name local_package dir = do
  call (remove_all dir) (o.remove_all dir)
  call (remove_all (dir <> ".tmp")) (o.remove_all (dir <> ".tmp"))
  call (unpack local_package (dir <> ".tmp")) (λ h. wrap_error (o.unpack h))
  move o (dir <> ".tmp") dir
  search o dir package_name

-- The archive that was there before, and its directory, are used if the archive is unchanged.
unfoldable pub choose : Answers → String → String → String → Bool → Exec Event String
choose o package_name local_package dir unchanged =
    if unchanged then search o dir package_name else unpack_again o package_name local_package dir

unfoldable pub use_or_unpack : Answers → String → String → String → Option ℕ → ℕ → Exec Event String
use_or_unpack o package_name local_package dir before after = do
  again ← attempt (ask_stat o local_package)
  unpacked ← attempt (ask_stat o dir)
  choose o package_name local_package dir
      (exists again && (exists unpacked && same_time before after))

-- `Fetch`, for an entry of the registry
unfoldable pub fetch_entry :
    Answers → String → RegistryEntry → String → String → String → String → Exec Event String
fetch_entry o work_dir entry package_name os arch version = do
  let local_package =
      join (join work_dir package_name) (archive entry.source package_name version os arch)
  let dir = join (join work_dir package_name) version
  let source = source_url entry.source package_name version os arch
  let from = source <> ("?checksum=file:" <> sum_url entry.source package_name version)
  lift (o.parse_url source)
  before ← ask_stat o local_package
  call (download from local_package) (λ h. wrap_error (o.download from local_package h))
  found ← ask_stat o local_package
  after ← lift (existing found)
  use_or_unpack o package_name local_package dir before after

-- `Fetch`
unfoldable pub fetch : Answers → String → String → String → String → String → Exec Event String
fetch o work_dir package_name os arch version h = elim (lookup package_name registry) [
  | none ↦ (err (unknown_package package_name), h)
  | some entry ↦ fetch_entry o work_dir entry package_name os arch (version_or version entry) h
]

-- A binary that the cache does not have.
abbrev pub obtain : Answers → String → String → String → String → String → Exec Event String
obtain o work_dir package_name os arch version =
    if str_eq package_name "yurt-run"
    then call (build package_name os arch) (o.build package_name os arch)
    else fetch o work_dir package_name os arch version

abbrev pub cache_key : String → String → String
cache_key package_name version = package_name <> (":" <> version)

-- `m.cache[…] = binPath; return binPath, nil`
abbrev pub remember : Dict String → String → Exec Event String → Exec Event (String × Dict String)
remember cache key m = m >>= λ path. pure (path, insert key path cache)

-- `GetOSArch`: the path, and the cache afterwards; an error leaves the cache as it was.
unfoldable pub get_os_arch :
    Answers
    → String
    → Dict String
    → String
    → String
    → String
    → String
    → Exec Event (String × Dict String)
get_os_arch o work_dir cache package_name os arch version =
    elim (lookup (cache_key package_name version) cache) [
      | some path ↦ pure (path, cache)
      | none ↦
          remember cache (cache_key package_name version)
            (obtain o work_dir package_name os arch version)
    ]
