-- ===== src/Install/Operations/Filters.antt =====
-- Which applications are those of a package, and what is installed is found again.
use Prim.Native.String.{◌++◌}
use mathlib.Core.Option.{get_or}
use mantl_api.Prelude.{
  String, ◌≡◌, refl, ◌↔◌, ◌==◌, eq_iff, false, Option, none, some, List, [], arith, inl, inr,
  Bool-cases, if◌then◌else◌,
}
use mantl_api.Prelude.Dict
use mantl_api.Prelude.Lists.{In, In-select}
use mantl_api.Prelude.Text.{has_prefix}
use mantl_api.Prelude.Outcome.{ok}
use mantl_api.Marathon.{App, apps}
use mantl_api.Install.Labels.{
  label, package_name_key, package_framework_name_key, dcos_package_framework_name_key,
}
use mantl_api.Install.Labels.{add_mantl_labels}
use mantl_api.Install.Labels.Laws.{or_else, add_mantl_labels-keeps, add_mantl_labels-framework}
use mantl_api.Install.Config.Definition.{PackageDefinition}
use mantl_api.Install.Package.Request.{PackageRequest}
use mantl_api.Install.Operations.{
  Env, Install, filter_by_id, filter_by_package_name, find_installed, framework_name,
}

module _ {W N : Type 0} (env : Env W N) where
  -- The id of an application of Marathon, which has a slash in front.
  abbrev pub full_id : String → String
  full_id id = if has_prefix id "/" then id else "/" ++ id

  -- the applications that a request names
  abbrev pub Wanted : PackageRequest N → App N → Type 0
  Wanted req app =
      (label package_name_key app ≡ req.name)
      × (((req.app_id == "") ≡ false) → app.id ≡ full_id req.app_id)

  filters-In :
      (req : PackageRequest N) (installed : List (App N)) (app : App N)
      → In app (
          if req.app_id == ""
          then filter_by_package_name req.name installed
          else filter_by_id req.app_id (filter_by_package_name req.name installed))
        ↔ (In app installed × Wanted req app)
  unfolding filter_by_package_name filter_by_id
  filters-In req installed app =
      let name = In-select (λ (a : App N). label package_name_key a == req.name) app installed in
      elim (Bool-cases (req.app_id == "")) [
        | inl e ↦ rw e (
          λ h. (
            (name.0 h).0,
            ((eq_iff (label package_name_key app) req.name).0 (name.0 h).1, λ no. cc),
          ),
          λ h. name.1 (h.0, (eq_iff (label package_name_key app) req.name).1 h.1.0),
        )
        | inr e ↦
            let id =
              In-select (λ (a : App N). a.id == full_id req.app_id) app
                (filter_by_package_name req.name installed) in
            rw e (
              λ h. (
                (name.0 (id.0 h).0).0,
                (
                  (eq_iff (label package_name_key app) req.name).0 (name.0 (id.0 h).0).1,
                  λ no. (eq_iff app.id (full_id req.app_id)).0 (id.0 h).1,
                ),
              ),
              λ h. id.1 (
                name.1 (h.0, (eq_iff (label package_name_key app) req.name).1 h.1.0),
                (eq_iff app.id (full_id req.app_id)).1 (h.1.1 refl),
              ),
            )
      ]

  -- When Marathon's applications are read, `FindInstalled` returns exactly those of them that carry
  -- the label of the package's name and, if the request has an id, have that id with a slash in front.
  pub find_installed-In :
      (i : Install N) (req : PackageRequest N) (w w' : W) (installed : List (App N))
      → apps env.net env.app_codec i.marathon w ≡ (ok installed, w')
      → (found : List (App N)) × (find_installed env i req w ≡ (ok found, w'))
        × ((app : App N) → In app found ↔ (In app installed × Wanted req app))
  unfolding find_installed
  find_installed-In i req w w' installed h = (_, rw h refl, λ app. filters-In req installed app)

  -- If an application has no framework label of the program's before it is given the labels of a
  -- package, its framework is then the one that DC/OS's label names or, without that label, the
  -- package's.
  pub framework_name-add_mantl_labels :
      (app labelled : App N) (d : PackageDefinition N)
      → add_mantl_labels env.codec env.mustache env.base64 app d ≡ ok labelled
      → Dict.get package_framework_name_key (get_or app.labels []) ≡ none
      → framework_name env labelled
        ≡ get_or (Dict.get dcos_package_framework_name_key (get_or app.labels [])) d.framework_name
  unfolding framework_name label
  framework_name-add_mantl_labels app labelled d h fresh =
      rw
        (
          add_mantl_labels-framework env.codec env.mustache env.base64 app labelled d h fresh,
          (add_mantl_labels-keeps env.codec env.mustache env.base64 app labelled d
              dcos_package_framework_name_key h (refl, refl, refl, refl, refl, refl, refl)).1,
        )
        (go (Dict.get dcos_package_framework_name_key (get_or app.labels [])))
    where
      go :
          (o : Option String)
          → (if get_or
                  (or_else o (if d.framework_name == "" then none else some d.framework_name))
                  ""
                == ""
              then get_or o ""
              else get_or
                  (or_else o (if d.framework_name == "" then none else some d.framework_name))
                  "")
            ≡ get_or o d.framework_name
      go none = ground (arith, eq_iff d.framework_name "")
      go (some v) = ground (arith, eq_iff v "")
