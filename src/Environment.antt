-- ===== src/Environment.antt =====
-- environment_bootstrap.py: the symbolic links that choose the environment of a deployment.
pub mod Links
use Prim.Native.String.{◌++◌}
use mlab_ns.Base.{
  String, Bool, true, false, not, Option, none, some, List, [], ◌∷◌, ◌==◌, if◌then◌else◌, keep,
}
use mlab_ns.Base.Dict.{lookup, insert}
use mlab_ns.Base.Errors.{PyError, Result, ok, raise}
use mlab_ns.Base.Text.{split}
use mlab_ns.Page.{and_then}

-- What a path names: a link with its target, or a file or directory.
pub data Entry : Type 0 where
  link : String → Entry
  other : Entry

abbrev pub Files : Type 0
Files = List (String × Entry)

abbrev pub last_part : String → List String → String
last_part s [] = s
last_part s (t ∷ ts) = last_part t ts

-- os.path.basename
unfoldable pub basename : String → String
basename path = last_part path (split b'/' path)

-- os.path.islink, from what the path names
abbrev pub is_link : Option Entry → Bool
is_link none = false
is_link (some other) = false
is_link (some (link target)) = true

-- os.remove
unfoldable pub remove : String → Files → Files
remove path [] = []
remove path ((p, e) ∷ files) =
    let rest = remove path files in if p == path then rest else (p, e) ∷ rest

-- os.symlink: the path must be free, and the directory it is in must be there.
abbrev pub symlink_at :
    (String → Bool) → String → String → Option Entry → Files → Result {0} Unit × Files
symlink_at has_directory target path (some e) files = (raise PyError.os_error, files)
symlink_at has_directory target path none files =
    if has_directory path
    then (ok tt, insert path (link target) files)
    else (raise PyError.os_error, files)

abbrev pub symlink : (String → Bool) → String → String → Files → Result {0} Unit × Files
symlink has_directory target path files =
    symlink_at has_directory target path (lookup path files) files

module _ (has_directory : String → Bool) where
  unfoldable pub create_environment_symlink : String → String → Files → Result {0} Unit × Files
  create_environment_symlink link_name environment_type files =
      let target_name = basename link_name ++ ("." ++ environment_type) in
      symlink has_directory target_name link_name
        (if is_link (lookup link_name files) then remove link_name files else files)

  unfoldable pub setup_environment : String → Files → Result {0} Unit × Files
  setup_environment environment_type files =
      and_then (create_environment_symlink "server/config.py" environment_type files)
        (λ files'. create_environment_symlink "server/app.yaml" environment_type files')
