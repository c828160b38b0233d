-- ===== src/Install/Fetch/Chosen.antt =====
-- Of which package and version a definition is.
use mathlib.Core.Path.{subst}
use mantl_api.Prelude.{String, ◌≡◌, refl, ap, ◌∙◌, true, Option, none, some, List, [], ◌∷◌}
use mantl_api.Prelude.Lists.{In, first-In}
use mantl_api.Prelude.Text.{equal_fold, trim_space}
use mantl_api.Prelude.Outcome.{ok, ok-injective}
use mantl_api.Prelude.Exec.{lift, >>=-eq-ok}
use mantl_api.Json.{Value, str, Fields, Codec, get, as_map}
use mantl_api.Consul.{Consul}
use mantl_api.Install.Config.Definition.{PackageDefinition}
use mantl_api.Install.Config.Render.{Mustache, merged_config}
use mantl_api.Install.Config.Render.Sharing.{user_config_after, user_config_after-plain}
use mantl_api.Install.Config.Transform.{get_config_val}
use mantl_api.Install.Package.{PackageVersion, Package, package_version_key, find_package_version}
use mantl_api.Install.Package.Choice.{Choice, find_package_version-Choice}
use mantl_api.Install.Repository.{get_repositories}
use mantl_api.Install.Catalog.Index.{get_packages, get_package_by_name}
use mantl_api.Install.Fetch.{
  Texts, load_all, definition_of, with_framework, package_or_fail, version_or_fail, completed,
  get_package_definition,
}

module _ {W N : Type 0} (consul : Consul W) (c : Codec N) (mustache : Mustache N) where
  package_or_fail-ok :
      (name : String) (o : Option Package) (p : Package) (w w' : W)
      → package_or_fail consul c mustache name o w ≡ (ok p, w')
      → (o ≡ some p) × (w ≡ w')
  unfolding package_or_fail
  package_or_fail-ok name none p w w' h = cc (ap (λ z. z.0) h)
  package_or_fail-ok name (some q) p w w' h =
      (ap some (ok-injective (ap (λ z. z.0) h)), ap (λ z. z.1) h)

  version_or_fail-ok :
      (name : String) (o : Option PackageVersion) (v : PackageVersion) (w w' : W)
      → version_or_fail consul c mustache name o w ≡ (ok v, w')
      → o ≡ some v
  unfolding version_or_fail
  version_or_fail-ok name none v w w' h = cc (ap (λ z. z.0) h)
  version_or_fail-ok name (some u) v w w' h = ap some (ok-injective (ap (λ z. z.0) h))

  -- What a definition says of its package, whatever framework it names. A setting of the user's is
  -- sure to be as it was given if it is no map.
  abbrev pub Of : Package → PackageVersion → Fields N → Fields N → PackageDefinition N → Type 0
  Of pkg v user_config api_config d =
      (d.name ≡ pkg.name)
      × (d.version ≡ v.version)
      × (d.release ≡ v.index)
      × (d.framework ≡ pkg.framework)
      × ((j : String) (x : Value N)
          → get j user_config ≡ some x
          → as_map (some x) ≡ none
          → get j d.user_config ≡ some x)
      × (d.api_config ≡ api_config)

  with_framework-Of :
      (o : Option (Value N)) (pkg : Package) (v : PackageVersion) (user api : Fields N)
      (d : PackageDefinition N)
      → Of pkg v user api d
      → Of pkg v user api (with_framework d o)
  unfolding with_framework
  with_framework-Of (some (str name)) pkg v user api d h = h
  with_framework-Of _ pkg v user api d h = h

  completed-Of :
      (pkg : Package) (v : PackageVersion) (user api : Fields N) (texts : Texts)
      (d : PackageDefinition N) (w w' : W)
      → completed consul c mustache (definition_of pkg v user api texts) w ≡ (ok d, w')
      → Of pkg v user api d
  unfolding completed
  completed-Of pkg v user api texts d w w' h =
      let made = definition_of pkg v user api texts in
      let (config, w1, p, h1) = >>=-eq-ok _ (lift (merged_config c mustache made)) w h in
      let (u, w2, q, h2) = >>=-eq-ok _ (lift (user_config_after c mustache made)) w1 h1 in
      subst (λ x. Of pkg v user api x) (ok-injective (ap (λ z. z.0) h2))
        (with_framework-Of (get_config_val config (pkg.name ∷ "framework-name" ∷ [])) pkg v user api
          (record made { user_config = u })
          (
            refl,
            refl,
            refl,
            refl,
            λ j x. user_config_after-plain c mustache made u j x (ap (λ z. z.0) q),
            refl,
          ))

  get_package_by_name-In :
      (name : String) (o : Option Package) (pkg : Package) (w w' : W)
      → get_package_by_name consul c name w ≡ (ok o, w')
      → o ≡ some pkg
      → (ps : List Package) × (get_packages consul c w ≡ (ok ps, w'))
        × In pkg ps
        × (equal_fold (trim_space name) pkg.name ≡ true)
  unfolding get_package_by_name
  get_package_by_name-In name o pkg w w' h s =
      let (ps, w1, a, e) = >>=-eq-ok _ (get_packages consul c) w h in
      let (i, f) =
        first-In (λ (p : Package). equal_fold (trim_space name) p.name) ps {a = pkg}
          (ok-injective (ap (λ z. z.0) e) ∙ s) in
      (ps, a ∙ ap (λ u. (ok ps, u)) (ap (λ z. z.1) e), i, f)

  -- A definition that `GetPackageDefinition` returns is of a package of the index whose name is the one
  -- that is asked for, trimmed and case folded, and of the version of it that the order of preference
  -- of `FindPackageVersion` chooses; it carries the API's settings as they were given, and so it does
  -- each of the user's settings that is no map.
  pub get_package_definition-Choice :
      (name version : String) (user api : Fields N) (d : PackageDefinition N) (w w' : W)
      → get_package_definition consul c mustache name version user api w ≡ (ok d, w')
      → (ps : List Package) × (w1 : W) × (pkg : Package) × (v : PackageVersion) × (get_packages
            consul c w
          ≡ (ok ps, w1))
        × In pkg ps
        × (equal_fold (trim_space name) pkg.name ≡ true)
        × Choice pkg version v
        × Of pkg v user api d
  unfolding get_package_definition
  get_package_definition-Choice name version user api d w w' h =
      let (o, w1, a, h1) = >>=-eq-ok _ (get_package_by_name consul c name) w h in
      let (pkg, w2, b, h2) = >>=-eq-ok _ (package_or_fail consul c mustache name o) w1 h1 in
      let (v, w3, e, h3) =
        >>=-eq-ok _ (version_or_fail consul c mustache name (find_package_version pkg version)) w2
          h2 in
      let (rs, w4, f, h4) = >>=-eq-ok _ (get_repositories consul) w3 h3 in
      let (texts, w5, g, h5) =
        >>=-eq-ok _ (load_all consul rs (package_version_key pkg v.index)) w4 h4 in
      let (ps, i, m, n) =
        get_package_by_name-In name o pkg w w1 a (package_or_fail-ok name o pkg w1 w2 b).0 in
      (
        ps,
        w1,
        pkg,
        v,
        i,
        m,
        n,
        find_package_version-Choice pkg version {v = v}
            (version_or_fail-ok name (find_package_version pkg version) v w2 w3 e),
        completed-Of pkg v user api texts d w5 w' h5,
      )
