-- ===== src/Examples/Binaries.antt =====
-- binaries/binaries.go: downloads.
use yurt.Prelude.{String, ◌≡◌, refl, some, true, false, List, [], ◌∷◌, Dict, lookup, insert}
use yurt.Effects.{ok}
use yurt.Runner.{join}
use yurt.Binaries.{RegistryEntry, registry, version_or}
use yurt.Binaries.Trees.{Dir, listing, file, subdir, none_left, dldir_to_binary}
use yurt.Binaries.Fetching.{Event, Answers, fetch, get_os_arch}
use yurt.Binaries.Fetching.Caching.{get_os_arch-cached}
use yurt.Binaries.Fetching.Sources.{fetch_ok, FoundUnder}

-- Archives of Prometheus hold one directory.
abbrev tree : Dir
tree = listing (
    subdir "prometheus-2.32.1"
      (listing (file "LICENSE" true false (file "prometheus" true true none_left))) none_left)

found : dldir_to_binary "/d" "prometheus" tree ≡ ok "/d/prometheus-2.32.1/prometheus"
unfolding dldir_to_binary
found = refl

-- The archive is there, unchanged and unpacked.
abbrev answers : Answers
answers = record {
  parse_url = λ url. ok tt;
  stat = λ path h. ok (some 1);
  download = λ from to h. ok tt;
  remove_all = λ path h. ok tt;
  unpack = λ h. ok tt;
  rename = λ h. ok tt;
  read_tree = λ dir h. tree;
  build = λ name os arch h. ok "/w/yurt-run";
}

abbrev binary : String
binary = "/w/prometheus/2.32.1/prometheus-2.32.1/prometheus"

abbrev fetch_calls : List Event
fetch_calls = (fetch answers "/w" "prometheus" "linux" "amd64" "" []).1

fetched : fetch answers "/w" "prometheus" "linux" "amd64" "" [] ≡ (ok binary, fetch_calls)
unfolding fetch lookup registry yurt.Binaries.Fetching.fetch_entry
    yurt.Binaries.Fetching.use_or_unpack yurt.Binaries.Fetching.choose dldir_to_binary
fetched = refl

fetch_ok_example :
    (entry : RegistryEntry) × (lookup "prometheus" registry ≡ some entry)
    × FoundUnder answers "prometheus"
        (join (join "/w" "prometheus") (version_or "" entry))
        fetch_calls
        binary
fetch_ok_example =
    fetch_ok answers "/w" "prometheus" "linux" "amd64" "" binary [] fetch_calls fetched

abbrev cache : Dict String
cache = ("prometheus:", binary) ∷ []

cached :
    get_os_arch answers "/w" [] "prometheus" "linux" "amd64" "" []
    ≡ (ok (binary, cache), fetch_calls)
unfolding get_os_arch lookup fetch registry yurt.Binaries.Fetching.fetch_entry
    yurt.Binaries.Fetching.use_or_unpack yurt.Binaries.Fetching.choose dldir_to_binary insert
cached = refl

get_os_arch-cached_example :
    get_os_arch answers "/w" cache "prometheus" "darwin" "arm64" "" [] ≡ (ok (binary, cache), [])
get_os_arch-cached_example =
    get_os_arch-cached answers "/w" "prometheus" "" "linux" "amd64" "darwin" "arm64" [] cache binary
      [] fetch_calls [] cached
