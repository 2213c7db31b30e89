-- ===== src/Binaries/Fetching/Caching.antt =====
-- binaries/binaries.go, `GetOSArch`: what the cache gives later.
use yurt.Prelude.{
  String, ◌≡◌, refl, List, Dict, lookup, insert, lookup-insert, eq_refl, Option, none, some, arith,
}
use yurt.Effects.{ok}
use yurt.Effects.Calls.{Exec, pure, bind-eq-ok}
use yurt.Binaries.Fetching.{Event, Answers, get_os_arch, cache_key, obtain, remember}

remember_ok :
    (m : Exec Event String) (cache cache' : Dict String) (key path : String) (h h' : List Event)
    → remember cache key m h ≡ (ok (path, cache'), h')
    → lookup key cache' ≡ some path
remember_ok m cache cache' key path h h' e =
    let (p, h1, _, rest) = bind-eq-ok m (λ path. pure (path, insert key path cache)) h e in
    ground (arith, lookup-insert key key p cache, eq_refl key)

-- Once a binary was found for one system and architecture, the same package and version give the
-- same path for every other system and architecture, without a call, and leave the cache as it is.
pub get_os_arch-cached :
    (o : Answers) (work_dir package_name version : String) (os arch os' arch' : String)
    (cache cache' : Dict String) (path : String) (h h' h'' : List Event)
    → get_os_arch o work_dir cache package_name os arch version h ≡ (ok (path, cache'), h')
    → get_os_arch o work_dir cache' package_name os' arch' version h'' ≡ (ok (path, cache'), h'')
unfolding get_os_arch
get_os_arch-cached o work_dir package_name version os arch os' arch' cache cache' path h h' h'' e =
    found (lookup (cache_key package_name version) cache) refl
  where
    found :
        (v : Option String)
        → lookup (cache_key package_name version) cache ≡ v
        → get_os_arch o work_dir cache' package_name os' arch' version h''
          ≡ (ok (path, cache'), h'')
    found (some p) q = ground arith
    found none q =
        let there =
          remember_ok (obtain o work_dir package_name os arch version) cache cache'
            (cache_key package_name version) path h h' (ground arith) in
        ground (arith, there)
