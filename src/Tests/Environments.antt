-- ===== src/Tests/Environments.antt =====
-- A switch from one environment to another.
use mlab_ns.Base.{String, true, some, [], ◌∷◌, ◌≡◌, ◌≢◌, refl}
use Prim.Native.String.{◌++◌}
use mlab_ns.Base.Dict.{lookup}
use mlab_ns.Base.Errors.{ok}
use mlab_ns.Environment.{link, Files, setup_environment}
use mlab_ns.Environment.Links.{setup_environment-links}

-- The configuration of staging is linked to, and app.yaml is not there yet.
abbrev files : Files
files = ("server/config.py", link "config.py.mlab-staging") ∷ []

setup_environment-links_example :
    let made = setup_environment (λ path. true) "mlab-ns" files in
    (made.0 ≡ ok tt)
    × (lookup "server/config.py" made.1 ≡ some (link ("config.py" ++ ("." ++ "mlab-ns"))))
    × (lookup "server/app.yaml" made.1 ≡ some (link ("app.yaml" ++ ("." ++ "mlab-ns"))))
    × ((path : String)
        → path ≢ "server/config.py"
        → path ≢ "server/app.yaml"
        → lookup path made.1 ≡ lookup path files)
setup_environment-links_example =
    setup_environment-links (λ path. true) "mlab-ns" files refl refl (λ e. absurd (cc))
      (λ e. absurd (cc))
