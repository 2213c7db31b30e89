-- ===== src/Binaries/Trees.antt =====
-- `dldirToBinary`: the search in an unpacked archive.
use yurt.Prelude.{String, ◌≡◌, Bool, true, false, ◌&&◌, str_eq, if◌then◌else◌, arith}
use mathlib.Core.Path.{subst}
use yurt.Effects.{Error, Result, ok, err, message}
use yurt.Runner.{join}

-- A directory as `ReadDir` lists it. A file is regular or not, and executable by all or not.
mutual
  pub data Dir : Type 0 where
    unreadable : Error → Dir
    listing : Entries → Dir

  pub data Entries : Type 0 where
    none_left : Entries
    file : String → Bool → Bool → Entries → Entries
    subdir : String → Dir → Entries → Entries

-- The loop over the files.
unfoldable pub find : String → String → Entries → Result String
find dldir package_name none_left = err (message "didn't find the package")
find dldir package_name (subdir name d rest) = find dldir package_name rest
find dldir package_name (file name regular executable rest) =
    let later = find dldir package_name rest in
    if str_eq name package_name && (regular && executable)
    then ok (join dldir package_name)
    else later

-- `dldirToBinary`
unfoldable pub dldir_to_binary : String → String → Dir → Result String
unfolding find
dldir_to_binary dldir package_name (unreadable e) = err e
dldir_to_binary dldir package_name (listing (subdir name d none_left)) =
    dldir_to_binary (join dldir name) package_name d
dldir_to_binary dldir package_name (listing (subdir name d (subdir n e rest))) =
    find dldir package_name (subdir name d (subdir n e rest))
dldir_to_binary dldir package_name (listing (subdir name d (file n r x rest))) =
    find dldir package_name (subdir name d (file n r x rest))
dldir_to_binary dldir package_name (listing (file n r x rest)) =
    find dldir package_name (file n r x rest)
dldir_to_binary dldir package_name (listing none_left) = find dldir package_name none_left

-- The entries have a regular file of this name that all may execute.
abbrev pub has_program : String → Entries → Bool
has_program package_name none_left = false
has_program package_name (subdir name d rest) = has_program package_name rest
has_program package_name (file name regular executable rest) =
    let later = has_program package_name rest in
    if str_eq name package_name && (regular && executable) then true else later

-- The path leads from `dldir` through directories, each the only entry of the one before, to such a
-- file in the first directory that is no such entry.
pub data Leads (package_name : String) : String → Dir → String → Type 0 where
  here :
      (dldir : String) (es : Entries)
      → has_program package_name es ≡ true
      → Leads package_name dldir (listing es) (join dldir package_name)
  below :
      (dldir name : String) (d : Dir) (path : String)
      → Leads package_name (join dldir name) d path
      → Leads package_name dldir (listing (subdir name d none_left)) path

find_ok :
    (dldir package_name path : String) (es : Entries)
    → find dldir package_name es ≡ ok path
    → (has_program package_name es ≡ true) × (join dldir package_name ≡ path)
unfolding find
find_ok dldir package_name path none_left e = absurd (ground arith)
find_ok dldir package_name path (subdir name d rest) e = find_ok dldir package_name path rest e
find_ok dldir package_name path (file name r x rest) e =
    ground (arith, find_ok dldir package_name path rest)

found-Leads :
    (dldir package_name path : String) (es : Entries)
    → find dldir package_name es ≡ ok path
    → Leads package_name dldir (listing es) path
found-Leads dldir package_name path es e =
    let (there, same) = find_ok dldir package_name path es e in
    subst (Leads package_name dldir (listing es)) same (here dldir es there)

-- A path that `dldirToBinary` returns leads through nested single directories to a regular file that
-- has the name of the package and that all may execute.
pub dldir_to_binary-Leads :
    (dldir package_name path : String) (d : Dir)
    → dldir_to_binary dldir package_name d ≡ ok path
    → Leads package_name dldir d path
unfolding dldir_to_binary
dldir_to_binary-Leads dldir package_name path (unreadable e) h = absurd (ground arith)
dldir_to_binary-Leads dldir package_name path (listing (subdir name d none_left)) h =
    below dldir name d path (dldir_to_binary-Leads (join dldir name) package_name path d h)
dldir_to_binary-Leads dldir package_name path (listing (subdir name d (subdir n e rest))) h =
    found-Leads dldir package_name path (subdir name d (subdir n e rest)) h
dldir_to_binary-Leads dldir package_name path (listing (subdir name d (file n r x rest))) h =
    found-Leads dldir package_name path (subdir name d (file n r x rest)) h
dldir_to_binary-Leads dldir package_name path (listing (file n r x rest)) h =
    found-Leads dldir package_name path (file n r x rest) h
dldir_to_binary-Leads dldir package_name path (listing none_left) h =
    found-Leads dldir package_name path none_left h
