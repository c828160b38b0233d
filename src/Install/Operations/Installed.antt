-- ===== src/Install/Operations/Installed.antt =====
-- What application an installation creates.
use mantl_api.Prelude.{String, ◌≡◌, ap, ◌∙◌, true, List}
use mantl_api.Prelude.Lists.{In}
use mantl_api.Prelude.Text.{equal_fold, trim_space}
use mantl_api.Prelude.Outcome.{ok}
use mantl_api.Prelude.Exec.{lift, >>=-eq-ok}
use mantl_api.Marathon.{App, to_app, create_app}
use mantl_api.Install.Config.Render.{marathon_app_json}
use mantl_api.Install.Package.{Package, PackageVersion}
use mantl_api.Install.Package.Choice.{Choice}
use mantl_api.Install.Package.Request.{PackageRequest}
use mantl_api.Install.Catalog.Index.{get_packages}
use mantl_api.Install.Fetch.{get_package_definition}
use mantl_api.Install.Fetch.Chosen.{get_package_definition-Choice}
use mantl_api.Install.Labels.{
  label, add_mantl_labels, package_name_key, package_version_key, package_index_key,
}
use mantl_api.Install.Labels.Laws.{add_mantl_labels-label}
use mantl_api.Install.Operations.{Env, Install, install_package}

module _ {W N : Type 0} (env : Env W N) (i : Install N) where
  -- An installation that succeeds ends with the creation in Marathon of an application that is labelled
  -- with the name, the version and the index of a package of the index, whose name is the one requested,
  -- trimmed and case folded, and of the version of it that the order of preference chooses for the
  -- request; what it returns is what that creation returned.
  pub install_package-Choice :
      (req : PackageRequest N) (text : String) (w w' : W)
      → install_package env i req w ≡ (ok text, w')
      → (ps : List Package) × (pkg : Package) × (v : PackageVersion) × (labelled : App N) × (w1 : W)
        × (w2 : W) × (get_packages env.consul env.codec w ≡ (ok ps, w1))
        × In pkg ps
        × (equal_fold (trim_space req.name) pkg.name ≡ true)
        × Choice pkg req.version v
        × (label package_name_key labelled ≡ pkg.name)
        × (label package_version_key labelled ≡ v.version)
        × (label package_index_key labelled ≡ v.index)
        × (create_app env.net env.app_codec i.marathon labelled w2 ≡ (ok text, w'))
  unfolding install_package
  install_package-Choice req text w w' h =
      let (d, w1, a, h1) =
        >>=-eq-ok _
          (get_package_definition env.consul env.codec env.mustache req.name req.version req.config
            i.api_config)
          w h in
      let (json, w2, b, h2) =
        >>=-eq-ok _ (lift (marathon_app_json env.codec env.mustache d)) w1 h1 in
      let (app, w3, e, h3) =
        >>=-eq-ok _ (lift (to_app env.net env.app_codec i.marathon json)) w2 h2 in
      let (labelled, w4, f, created) =
        >>=-eq-ok _ (lift (add_mantl_labels env.codec env.mustache env.base64 app d)) w3 h3 in
      let (ps, u, pkg, v, got, m, named, chosen, (n, ver, rel, _, _, _)) =
        get_package_definition-Choice env.consul env.codec env.mustache req.name req.version
          req.config i.api_config d w w1 a in
      let (_, _, l1, l2, l3, _) =
        add_mantl_labels-label env.codec env.mustache env.base64 app labelled d (ap (λ z. z.0) f) in
      (ps, pkg, v, labelled, u, w4, got, m, named, chosen, l1 ∙ n, l2 ∙ ver, l3 ∙ rel, created)
