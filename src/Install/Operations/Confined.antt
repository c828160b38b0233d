-- ===== src/Install/Operations/Confined.antt =====
-- Neither an installation nor a removal changes what Consul holds.
use mantl_api.Prelude.{◌==◌, ◌∙◌, ℕ, zero, suc, String, Option, none, some, List, [], ◌∷◌}
use mantl_api.Prelude.Outcome.{ok}
use mantl_api.Prelude.Exec.{Exec}
use mantl_api.Prelude.Exec.Keeps.{Keeps, lift-Keeps, if-Keeps, >>=-Keeps, attempt-Keeps}
use mantl_api.Http.{Request}
use mantl_api.Marathon.{App, to_app}
use mantl_api.Zookeeper.{walk, znode_tree, delete_each, delete_tree, delete, then_close}
use mantl_api.Install.Package.Request.{PackageRequest}
use mantl_api.Install.Config.Render.{marathon_app_json}
use mantl_api.Install.Labels.{label, package_uninstall_key, add_mantl_labels}
use mantl_api.Install.Reading.{KeepsOnRead, get_package_definition-Keeps}
use mantl_api.Install.Operations.Calls.{create_app-Keeps, destroy_app-Keeps, shutdown_named-Keeps}
use mantl_api.Install.Operations.{
  Env, Install, ZookeeperNode, install_package, delete_nodes, post_uninstall, framework_name,
  uninstall_package,
}

-- The calls of the environment, apart from the writes to Consul, do not change what `view` shows.
pub record Confined {W N V : Type 0} (view : W → V) (env : Env W N) : Type 0 where
  pub reads : KeepsOnRead view env.consul
  pub sends : (request : Request) → Keeps view (env.net.send request)
  pub connects : (servers : List String) → Keeps view (env.zk.connect servers)
  pub closes : Keeps view env.zk.close
  pub lists_nodes : (key : String) → Keeps view (env.zk.children key)
  pub deletes_nodes : (key : String) → Keeps view (env.zk.delete key)

module _ {W N V : Type 0} (view : W → V) (env : Env W N) (h : Confined view env) where
  -- An installation changes nothing that is kept from it.
  pub install_package-Keeps :
      (i : Install N) (req : PackageRequest N) → Keeps view (install_package env i req)
  unfolding install_package
  install_package-Keeps i req =
      >>=-Keeps view
        (get_package_definition-Keeps view env.consul env.codec env.mustache h.reads req.name
          req.version req.config i.api_config)
        λ d. >>=-Keeps view (lift-Keeps view (marathon_app_json env.codec env.mustache d)) λ text.
          >>=-Keeps view (lift-Keeps view (to_app env.net env.app_codec i.marathon text)) λ app.
            >>=-Keeps view
              (lift-Keeps view (add_mantl_labels env.codec env.mustache env.base64 app d))
              λ labelled. create_app-Keeps view env h.sends i.marathon labelled

  walk-Keeps :
      (below : String → String → Exec W (List String)) (key next : String) (cs : List String)
      → ((k n : String) → Keeps view (below k n))
      → Keeps view (walk env.zk below key next cs)
  unfolding walk
  walk-Keeps below key next [] k = lift-Keeps view _
  walk-Keeps below key next (c ∷ cs) k =
      >>=-Keeps view (k _ _)
        λ nested. >>=-Keeps view (walk-Keeps below key next cs k) λ rest. lift-Keeps view _

  znode_tree-Keeps : (fuel : ℕ) (key next : String) → Keeps view (znode_tree env.zk fuel key next)
  unfolding znode_tree
  znode_tree-Keeps zero key next = lift-Keeps view _
  znode_tree-Keeps (suc fuel) key next =
      >>=-Keeps view (h.lists_nodes key) λ cs. walk-Keeps _ key next _ (znode_tree-Keeps fuel)

  delete_each-Keeps : (key : String) (ns : List String) → Keeps view (delete_each env.zk key ns)
  unfolding delete_each
  delete_each-Keeps key [] = lift-Keeps view _
  delete_each-Keeps key (n ∷ ns) =
      attempt-Keeps view (h.deletes_nodes _) (λ _. delete_each-Keeps key ns)
        (λ e. delete_each-Keeps key ns)

  delete_tree-Keeps : (fuel : ℕ) (key : String) → Keeps view (delete_tree env.zk fuel key)
  unfolding delete_tree
  delete_tree-Keeps fuel key =
      >>=-Keeps view (znode_tree-Keeps fuel key "")
        λ nodes. >>=-Keeps view (delete_each-Keeps key _) λ _. h.deletes_nodes key

  delete-Keeps :
      (servers : List String) (fuel : ℕ) (path : String)
      → Keeps view (delete env.zk servers fuel path)
  unfolding delete then_close
  delete-Keeps servers fuel path =
      >>=-Keeps view (h.connects servers)
        λ _. record { same = λ w. h.closes.same _ ∙ (delete_tree-Keeps fuel _).same w }

  delete_nodes-Keeps :
      (i : Install N) (ns : List ZookeeperNode) → Keeps view (delete_nodes env i ns)
  unfolding delete_nodes
  delete_nodes-Keeps i [] = lift-Keeps view _
  delete_nodes-Keeps i (n ∷ ns) =
      >>=-Keeps view
        (if-Keeps view n.always
          (attempt-Keeps view (delete-Keeps i.zk_servers env.stack n.path)
            (λ _. lift-Keeps view (ok tt)) (λ e. lift-Keeps view (ok tt)))
          (lift-Keeps view (ok tt)))
        λ _. delete_nodes-Keeps i ns

  post_uninstall-Keeps : (i : Install N) (app : App N) → Keeps view (post_uninstall env i app)
  unfolding post_uninstall
  post_uninstall-Keeps i app =
      if-Keeps view (label package_uninstall_key app == "") (lift-Keeps view (ok tt)) (
        >>=-Keeps view (lift-Keeps view (env.base64.decode (label package_uninstall_key app)))
          λ decoded.
            >>=-Keeps view (lift-Keeps view (env.uninstall_nodes decoded))
              λ nodes. delete_nodes-Keeps i nodes)

  -- A removal changes nothing that is kept from it.
  pub uninstall_package-Keeps :
      (i : Install N) (app : Option (App N)) → Keeps view (uninstall_package env i app)
  unfolding uninstall_package
  uninstall_package-Keeps i none = lift-Keeps view _
  uninstall_package-Keeps i (some app) =
      >>=-Keeps view (destroy_app-Keeps view env h.sends i.marathon app.id) λ _.
        >>=-Keeps view
          (if-Keeps view (framework_name env app == "") (lift-Keeps view (ok tt))
            (shutdown_named-Keeps view env h.sends i.mesos (framework_name env app)))
          λ _.
            attempt-Keeps view (post_uninstall-Keeps i app) (λ _. lift-Keeps view (ok tt))
              (λ e. lift-Keeps view (ok tt))
