-- ===== src/Install/Operations.antt =====
-- install/install.go: the installation and the removal of packages.
pub mod Filters
pub mod Removal
pub mod Installed
pub mod Calls
pub mod Confined
use Prim.Native.String.{◌++◌}
use mathlib.Core.Option.{get_or}
use mantl_api.Prelude.{
  ℕ, String, ◌==◌, Bool, true, false, Option, none, some, List, [], ◌∷◌, if◌then◌else◌,
}
use mantl_api.Prelude.Dict
use mantl_api.Prelude.Lists.{select}
use mantl_api.Prelude.Text.{has_prefix, join}
use mantl_api.Prelude.Outcome.{Result, ok, err, panic}
use mantl_api.Prelude.Outcome as R
use mantl_api.Prelude.Exec.{Exec, pure, fail, lift, ◌>>=◌, ◌>>◌, attempt}
use mantl_api.Json.{Value, bool, str, obj, Fields, end, field, Codec}
use mantl_api.Http.{Network}
use mantl_api.Consul.{Consul}
use mantl_api.Marathon.{App, AppCodec, Marathon, to_app, apps, create_app, destroy_app}
use mantl_api.Mesos.{Mesos, StateDecoder, requires_authentication, shutdown_framework_by_name}
use mantl_api.Zookeeper.{ZkClient, delete}
use mantl_api.Install.Config.Render.{Mustache, marathon_app_json}
use mantl_api.Install.Package.Request.{PackageRequest}
use mantl_api.Install.Fetch.{get_package_definition}
use mantl_api.Install.Labels.{
  Base64, label, add_mantl_labels, package_name_key, package_framework_name_key,
  package_uninstall_key, dcos_package_framework_name_key,
}

-- `zookeeperNode`, and `packageUninstall` with its list of nodes, empty if there is none
pub record ZookeeperNode : Type 0 where
  pub path : String
  pub always : Bool

-- The packages that the program calls, and the world they act on.
pub record Env (W N : Type 0) : Type 0 where
  pub consul : Consul W
  pub net : Network W
  pub zk : ZkClient W
  -- the depth of a walk at which the stack is exhausted
  pub stack : ℕ
  pub codec : Codec N
  pub app_codec : AppCodec N
  pub state_decoder : StateDecoder N
  -- `json.Unmarshal` into a `packageUninstall`; a panic for a document that leaves its pointer nil
  pub uninstall_nodes : String → Result (List ZookeeperNode)
  pub mustache : Mustache N
  pub base64 : Base64

-- `Install`, with the package's variable `apiConfig`
pub record Install (N : Type 0) : Type 0 where
  pub marathon : Marathon
  pub mesos : Option Mesos
  pub zk_servers : List String
  pub api_config : Fields N

-- `filterByID`
unfoldable pub filter_by_id : {N : Type 0} → String → List (App N) → List (App N)
filter_by_id id apps =
    let full = if has_prefix id "/" then id else "/" ++ id in select (λ app. app.id == full) apps

has_label : Option String → Bool
has_label none = false
has_label (some v) = true

-- `filterPackages`
unfoldable pub filter_packages : {N : Type 0} → List (App N) → List (App N)
unfolding has_label
filter_packages apps =
    select (λ app. has_label (Dict.get package_name_key (get_or app.labels []))) apps

-- `filterByPackageName`
unfoldable pub filter_by_package_name : {N : Type 0} → String → List (App N) → List (App N)
filter_by_package_name name apps = select (λ app. label package_name_key app == name) apps

module _ {W N : Type 0} (env : Env W N) where
  mesos_config : Mesos → Bool → Fields N
  mesos_config m required = field "principal" (str m.principal) (
      field "secret" (str m.secret) (
        field "secret-path" (str m.secret_path)
          (field "authentication-enabled" (bool required) end)))

  mantl_config : List String → Fields N → Fields N
  mantl_config zk_hosts rest =
      field "mantl"
        (obj (field "zookeeper" (obj (field "hosts" (str (join zk_hosts ",")) end)) rest)) end

  -- `NewInstall`
  unfoldable pub new_install : Marathon → Option Mesos → List String → Exec W (Install N)
  unfolding mesos_config mantl_config
  new_install marathon none zk_hosts = pure (record {
    marathon = marathon;
    mesos = none;
    zk_servers = zk_hosts;
    api_config = mantl_config zk_hosts end;
  })
  new_install marathon (some m) zk_hosts =
      requires_authentication env.net env.state_decoder m >>= λ required. pure (record {
        marathon = marathon;
        mesos = some m;
        zk_servers = zk_hosts;
        api_config = mantl_config zk_hosts (field "mesos" (obj (mesos_config m required)) end);
      })

  -- `InstallPackage`
  unfoldable pub install_package : Install N → PackageRequest N → Exec W String
  install_package i req =
      get_package_definition env.consul env.codec env.mustache req.name req.version req.config
        i.api_config
      >>= λ d. lift (marathon_app_json env.codec env.mustache d) >>= λ marathon_json.
          lift (to_app env.net env.app_codec i.marathon marathon_json) >>= λ app.
          lift (add_mantl_labels env.codec env.mustache env.base64 app d) >>= λ labelled.
          create_app env.net env.app_codec i.marathon labelled

  -- `installedApps`
  abbrev pub installed_apps : Install N → Exec W (List (App N))
  installed_apps i = apps env.net env.app_codec i.marathon

  -- `FindInstalled`
  unfoldable pub find_installed : Install N → PackageRequest N → Exec W (List (App N))
  find_installed i req = installed_apps i >>= λ installed.
      let matching = filter_by_package_name req.name installed in
      pure (if req.app_id == "" then matching else filter_by_id req.app_id matching)

  -- `app.Labels[packageFrameworkNameKey]`, or the name that DC/OS sets
  unfoldable pub framework_name : App N → String
  framework_name app =
      if label package_framework_name_key app == ""
      then label dcos_package_framework_name_key app
      else label package_framework_name_key app

  -- the loop over the nodes of `uninstall.json`; the result of a deletion is dropped
  unfoldable pub delete_nodes : Install N → List ZookeeperNode → Exec W (Unit {0})
  delete_nodes i [] = pure tt
  delete_nodes i (node ∷ nodes) =
      (if node.always
        then attempt (delete env.zk i.zk_servers env.stack node.path) (λ _. pure tt) (λ e. pure tt)
        else pure tt)
      >> delete_nodes i nodes

  -- `postUninstall`
  unfoldable pub post_uninstall : Install N → App N → Exec W (Unit {0})
  post_uninstall i app =
      if label package_uninstall_key app == ""
      then pure tt
      else lift (env.base64.decode (label package_uninstall_key app)) >>= λ decoded.
          lift (env.uninstall_nodes decoded) >>= λ nodes. delete_nodes i nodes

  unfoldable pub shutdown_named : Option Mesos → String → Exec W (Unit {0})
  shutdown_named none name = lift panic
  shutdown_named (some m) name = shutdown_framework_by_name env.net env.state_decoder m name

  -- `UninstallPackage`; what fails after the shutdown is logged and passed over.
  unfoldable pub uninstall_package : Install N → Option (App N) → Exec W (Unit {0})
  unfolding shutdown_named
  uninstall_package i none = fail "App cannot be nil when uninstalling a package"
  uninstall_package i (some app) =
      destroy_app env.net env.app_codec i.marathon app.id
      >> ((if framework_name app == ""
            then pure tt
            else shutdown_named i.mesos (framework_name app))
          >> attempt (post_uninstall i app) (λ _. pure tt) (λ e. pure tt))
