-- ===== src/Environment/Links.antt =====
-- What the links are after a run of the script.
use Prim.Native.String.{◌++◌}
use mlab_ns.Base.{
  String, Bool, true, Option, none, some, [], ◌∷◌, ◌==◌, if◌then◌else◌, ◌≡◌, ◌≢◌, refl, sym, ◌∙◌,
  arith, eq_iff,
}
use mlab_ns.Base.Dict.{lookup, lookup-insert}
use mlab_ns.Base.Errors.{Result, ok}
use mlab_ns.Page.{and_then-ok}
use mlab_ns.Environment.{
  Entry, link, other, Files, basename, is_link, remove, symlink, create_environment_symlink,
  setup_environment,
}

lookup-remove :
    (path j : String) (files : Files)
    → lookup j (remove path files) ≡ (if path == j then none else lookup j files)
unfolding remove
lookup-remove path j [] = ground arith
lookup-remove path j ((p, e) ∷ files) =
    ground (arith, eq_iff p path, eq_iff path j, eq_iff p j, lookup-remove path j files)

module _ (has_directory : String → Bool) where
  -- The link is there, and every other path names what it named.
  abbrev pub Made : String → String → Files → Result {0} Unit × Files → Type 0
  Made name target files r =
      (r.0 ≡ ok tt)
      × ((path : String)
          → lookup path r.1 ≡ (if name == path then some (link target) else lookup path files))

  symlink-Made :
      (name target : String) (files cleared : Files)
      → has_directory name ≡ true
      → lookup name cleared ≡ none
      → ((path : String)
          → (if name == path then none else lookup path cleared)
            ≡ (if name == path then none else lookup path files))
      → Made name target files (symlink has_directory target name cleared)
  symlink-Made name target files cleared there free same =
      rw (free, there)
        (refl, λ path. ground (arith, lookup-insert name path (link target) cleared, same path))

  create_environment_symlink-Made :
      (name env : String) (files : Files)
      → has_directory name ≡ true
      → lookup name files ≢ some other
      → Made name
          (basename name ++ ("." ++ env))
          files
          (create_environment_symlink has_directory name env files)
  unfolding create_environment_symlink
  create_environment_symlink-Made name env files there no_file =
      by_entry (lookup name files) refl no_file
    where
      by_entry :
          (o : Option Entry)
          → lookup name files ≡ o
          → o ≢ some other
          → Made name (basename name ++ ("." ++ env)) files (
              symlink has_directory
                (basename name ++ ("." ++ env))
                name
                (if is_link o then remove name files else files))
      by_entry none e h = symlink-Made name _ files files there e (λ path. refl)
      by_entry (some other) e h = absurd (h refl)
      by_entry (some (link old)) e h =
          symlink-Made name _ files (remove name files) there
            (lookup-remove name name files ∙ rw ((eq_iff name name).1 refl) refl)
            (λ path. ground (arith, lookup-remove name path files))

  -- Where neither path names a file or directory that is no link, and the directory of both is there, a
  -- run of the script ends well and leaves server/config.py and server/app.yaml as links to the files
  -- of the environment, whatever they were links to before, and every other path as it was.
  pub setup_environment-links :
      (env : String) (files : Files)
      → has_directory "server/config.py" ≡ true
      → has_directory "server/app.yaml" ≡ true
      → lookup "server/config.py" files ≢ some other
      → lookup "server/app.yaml" files ≢ some other
      → let made = setup_environment has_directory env files in
        (made.0 ≡ ok tt)
        × (lookup "server/config.py" made.1 ≡ some (link ("config.py" ++ ("." ++ env))))
        × (lookup "server/app.yaml" made.1 ≡ some (link ("app.yaml" ++ ("." ++ env))))
        × ((path : String)
            → path ≢ "server/config.py"
            → path ≢ "server/app.yaml"
            → lookup path made.1 ≡ lookup path files)
  unfolding setup_environment basename
  setup_environment-links env files there there' no_file no_file' =
      let (ended, first) =
        create_environment_symlink-Made "server/config.py" env files there no_file in
      let (ended', second) =
        create_environment_symlink-Made "server/app.yaml" env
          (create_environment_symlink has_directory "server/config.py" env files).1 there'
          (λ e. no_file' (sym (first "server/app.yaml") ∙ e)) in
      let done =
        and_then-ok (create_environment_symlink has_directory "server/config.py" env files)
          (λ files'. create_environment_symlink has_directory "server/app.yaml" env files') ended in
      rw done (
        ended',
        second "server/config.py" ∙ first "server/config.py",
        second "server/app.yaml",
        λ path other_one other_two. ground (
          arith,
          second path,
          first path,
          eq_iff "server/config.py" path,
          eq_iff "server/app.yaml" path,
          other_one,
          other_two,
        ),
      )
