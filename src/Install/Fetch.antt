-- ===== src/Install/Fetch.antt =====
-- `GetPackageDefinition` and `getPackageDefinitionFile` of install/package.go.
pub mod Layers
pub mod Chosen
pub mod Paths
pub mod Synced
use Prim.Native.String.{◌++◌}
use mantl_api.Prelude.{String, ◌==◌, Option, none, some, List, [], ◌∷◌, if◌then◌else◌}
use mantl_api.Prelude.Slash.{path_join}
use mantl_api.Prelude.Outcome.{Result, ok, err}
use mantl_api.Prelude.Exec.{Exec, pure, fail, lift, ◌>>=◌, attempt}
use mantl_api.Json.{Value, str, Fields, Codec}
use mantl_api.Consul.{Consul}
use mantl_api.Install.Config.Definition.{PackageDefinition}
use mantl_api.Install.Config.Transform.{get_config_val, value_transformers}
use mantl_api.Install.Config.Render.{Mustache, merged_config}
use mantl_api.Install.Config.Render.Sharing.{user_config_after}
use mantl_api.Install.Package.{PackageVersion, Package, package_version_key, find_package_version}
use mantl_api.Install.Repository.{Repository, packages_key, get_repositories}
use mantl_api.Install.Catalog.Index.{get_package_by_name}

-- The files of a definition.
pub record Texts : Type 0 where
  pub command : String
  pub config : String
  pub marathon : String
  pub metadata : String
  pub options : String
  pub uninstall : String

abbrev pub no_texts : Texts
no_texts = record {
  command = "";
  config = "";
  marathon = "";
  metadata = "";
  options = "";
  uninstall = "";
}

text_or_empty : Option String → String
text_or_empty none = ""
text_or_empty (some text) = text

-- `if len(data) > 0 { field = data }`
unfoldable pub newer : String → String → String
newer new old = if new == "" then old else new

unfoldable pub overlay : Texts → Texts → Texts
unfolding newer
overlay new old = record {
  command = newer new.command old.command;
  config = newer new.config old.config;
  marathon = newer new.marathon old.marathon;
  metadata = newer new.metadata old.metadata;
  options = newer new.options old.options;
  uninstall = newer new.uninstall old.uninstall;
}

module _ {W : Type 0} (consul : Consul W) where
  -- `getPackageDefinitionFile`: an error is as a file that is not there.
  unfoldable pub definition_file : String → String → Exec W String
  unfolding text_or_empty
  definition_file name key =
      attempt (consul.get (path_join (key ∷ name ∷ []))) (λ kp. pure (text_or_empty kp))
        (λ e. pure "")

  -- the six files of one repository
  unfoldable pub read_files : String → Exec W Texts
  read_files key = definition_file "command.json" key >>= λ command.
      definition_file "config.json" key >>= λ config.
      definition_file "marathon.json" key >>= λ marathon.
      definition_file "package.json" key >>= λ metadata.
      definition_file "mantl.json" key >>= λ options.
      definition_file "uninstall.json" key >>= λ uninstall. pure (record {
        command = command;
        config = config;
        marathon = marathon;
        metadata = metadata;
        options = options;
        uninstall = uninstall;
      })

  -- where a repository keeps a version of a package
  unfoldable pub definition_key : Repository → String → String
  definition_key repo version_key = path_join (packages_key repo ∷ version_key ∷ [])

  -- the loop over the repositories: a later one replaces the files that it has
  unfoldable pub load : List Repository → String → Texts → Exec W Texts
  load [] version_key texts = pure texts
  load (repo ∷ repos) version_key texts = read_files (definition_key repo version_key) >>= λ found.
      load repos version_key (overlay found texts)

  -- The key is made anew in each round, so that no repository means no panic.
  unfoldable pub load_all : List Repository → Result String → Exec W Texts
  load_all [] version_key = pure no_texts
  load_all (repo ∷ repos) version_key = lift version_key >>= λ key. load (repo ∷ repos) key no_texts

abbrev pub definition_of :
    {N : Type 0} → Package → PackageVersion → Fields N → Fields N → Texts → PackageDefinition N
definition_of pkg v user_config api_config texts = record {
  command_json = texts.command;
  config_json = texts.config;
  marathon_json = texts.marathon;
  package_json = texts.metadata;
  options_json = texts.options;
  uninstall_json = texts.uninstall;
  api_config = api_config;
  user_config = user_config;
  name = pkg.name;
  version = v.version;
  release = v.index;
  framework = pkg.framework;
  framework_name = "";
  value_transformers = value_transformers;
}

-- the framework's name in the merged configuration, if that is a text
with_framework : {N : Type 0} → PackageDefinition N → Option (Value N) → PackageDefinition N
with_framework d (some (str name)) = record d { framework_name = name }
with_framework d _ = d

module _ {W N : Type 0} (consul : Consul W) (c : Codec N) (mustache : Mustache N) where
  unfoldable pub package_or_fail : String → Option Package → Exec W Package
  package_or_fail name none = fail ("Could not find " ++ name ++ " package")
  package_or_fail name (some pkg) = pure pkg

  unfoldable pub version_or_fail : String → Option PackageVersion → Exec W PackageVersion
  version_or_fail name none = fail ("Could not find installable version for " ++ name)
  version_or_fail name (some v) = pure v

  -- The end of `GetPackageDefinition`: the configuration is merged, which may change maps of the
  -- user's, and the framework's name is taken from it.
  unfoldable pub completed : PackageDefinition N → Exec W (PackageDefinition N)
  unfolding with_framework
  completed d = lift (merged_config c mustache d) >>= λ config.
      lift (user_config_after c mustache d) >>= λ user. pure (
        with_framework (record d { user_config = user })
          (get_config_val config (d.name ∷ "framework-name" ∷ [])))

  -- `GetPackageDefinition`
  unfoldable pub get_package_definition :
      String → String → Fields N → Fields N → Exec W (PackageDefinition N)
  unfolding package_or_fail version_or_fail
  get_package_definition name version user_config api_config =
      get_package_by_name consul c name >>= λ found. package_or_fail name found >>= λ pkg.
      version_or_fail name (find_package_version pkg version) >>= λ v.
      get_repositories consul >>= λ repositories.
      load_all consul repositories (package_version_key pkg v.index) >>= λ texts.
      completed (definition_of pkg v user_config api_config texts)
