-- ===== src/Tests/Catalogs.antt =====
-- Runs of install/catalog.go and of `GetPackageDefinition` on one package.
use mantl_api.Prelude.{
  ℕ, String, ◌≡◌, refl, ◌≢◌, ◌↔◌, ◌==◌, Bool, true, false, Option, none, some, List, [], ◌∷◌, ◌⊎◌,
  inl, inr,
}
use mantl_api.Prelude.Dict.{Map, get, values}
use mantl_api.Prelude.Lists.{In}
use mantl_api.Prelude.Int
use mantl_api.Prelude.Int.{ℤ, pos}
use mantl_api.Prelude.Sort.{IsSorted}
use mantl_api.Prelude.Text.{less}
use mantl_api.Prelude.Outcome.{ok}
use mantl_api.Json.{Value, str, Fields, end, field}
use mantl_api.Install.Package.{
  PackageVersion, Package, package_versions, find_latest, find_package_version,
}
use mantl_api.Install.Package.Choice.{Choice}
use mantl_api.Install.Repository.{Repository, repository_indexes, get_repositories}
use mantl_api.Install.Catalog.Index.{Found, finish}
use mantl_api.Install.Fetch.{Texts, load_all}
use mantl_api.Prelude.Dict
use mantl_api.Prelude.{map}
use mantl_api.Prelude.Sort.{sort}
use mantl_api.Install.Catalog.{Catalog, new_package_catalog, package_keys}
use mantl_api.Install.Catalog.Held.{
  held, first_directory, new_package_catalog-held, package_keys-In,
}
use mantl_api.Install.Catalog.Index.{packages_index}
use mantl_api.Install.Catalog.Index.Keyed.{IsKeyed, packages_index-IsKeyed}
use mantl_api.Install.Catalog.Index.Names.{packages_index-names}
use mantl_api.Prelude.{ap}
use mantl_api.Prelude.Lists.{first}
use mantl_api.Prelude.Text.{equal_fold, trim_space}
use mantl_api.Install.Config.Definition.{PackageDefinition}
use mantl_api.Install.Config.Transform.{get_config_val, value_transformers}
use mantl_api.Install.Config.Render.{merged_config}
use mantl_api.Install.Package.{package_version_key}
use mantl_api.Install.Catalog.Index.{get_packages, get_package_by_name}
use mantl_api.Install.Fetch.{definition_of, get_package_definition}
use mantl_api.Install.Fetch.Chosen.{Of, get_package_definition-Choice}
use mantl_api.Tests.{mustache}
use mantl_api.Json.{Value, str, Fields, end, field}
use mantl_api.Tests.{codec, consul, store}
use mantl_api.Tests.Packages.{nine, ten, repositories}

abbrev catalog : Catalog
catalog =
    ("spark", ("9", ("0", "mantl-install/repository/9/repo/packages/S/spark/0/") ∷ []) ∷ []) ∷ []

catalog_made : new_package_catalog consul "mantl-install/repository" store ≡ (ok catalog, store)
unfolding new_package_catalog mantl_api.Install.Catalog.add_keys sort less
    mantl_api.Install.Catalog.add_key mantl_api.Install.Catalog.package_parts
    mantl_api.Prelude.Text.split Dict.put get mantl_api.Prelude.Text.through_last
catalog_made = refl

new_package_catalog-held_example :
    (ks : List String) × (consul.keys "mantl-install/repository" "" store ≡ (ok ks, store))
    × (held "spark" "9" "0" catalog ≡ first_directory (sort less ks) "spark" "9" "0")
new_package_catalog-held_example =
    new_package_catalog-held consul "mantl-install/repository" "spark" "9" "0" store store catalog
      catalog_made

package_keys-In_example :
    In "mantl-install/repository/9/repo/packages/S/spark/0/" (package_keys catalog "spark") ↔ (
      (r : String) × (v : String) × (held "spark" r v catalog
        ≡ some "mantl-install/repository/9/repo/packages/S/spark/0/"))
package_keys-In_example =
    package_keys-In catalog "spark" "mantl-install/repository/9/repo/packages/S/spark/0/"

abbrev indexed : Package
indexed = record {
  name = "spark";
  description = "";
  framework = false;
  current_version = "1.5";
  supported = false;
  tags = [];
  versions = ("1.5", record { version = "1.5"; index = "0"; supported = false }) ∷ [];
}

run_of_index : packages_index consul codec catalog store ≡ (ok (indexed ∷ []), store)
unfolding packages_index mantl_api.Install.Catalog.Index.index_packages
    mantl_api.Install.Catalog.names sort Dict.keys mantl_api.Install.Catalog.Index.index_package
    mantl_api.Install.Catalog.Index.index_keys package_keys
    mantl_api.Install.Catalog.keys_of_repositories get mantl_api.Install.Catalog.keys_of_versions
    mantl_api.Install.Catalog.Index.key_exists mantl_api.Install.Catalog.Index.package_meta
    mantl_api.Tests.parse mantl_api.Json.get finish mantl_api.Install.Catalog.Index.settle
    mantl_api.Install.Catalog.Index.apply_meta mantl_api.Install.Catalog.Index.current_of
    mantl_api.Install.Catalog.Index.mark mantl_api.Install.Catalog.Index.mark_all
    mantl_api.Install.Package.by_most_recent find_latest package_versions
    mantl_api.Install.Repository.last_part Dict.put values less mantl_api.Prelude.Text.split
    mantl_api.Prelude.Text.strip_suffix mantl_api.Prelude.Text.trim_suffix
run_of_index = refl

packages_index-names_example :
    (map (λ (p : Package). p.name) (indexed ∷ []) ≡ sort less (Dict.keys catalog))
    × IsSorted less (map (λ (p : Package). p.name) (indexed ∷ []))
    × ((name : String)
        → In name (map (λ (p : Package). p.name) (indexed ∷ [])) ↔ In name (Dict.keys catalog))
packages_index-names_example =
    packages_index-names consul codec catalog (indexed ∷ []) store store run_of_index

packages_index-IsKeyed_example : IsKeyed indexed.versions
packages_index-IsKeyed_example =
    packages_index-IsKeyed consul codec catalog (indexed ∷ []) indexed store store run_of_index
      (inl refl)

abbrev pub fetched : PackageDefinition ℕ
fetched = record {
  command_json = "";
  config_json = "schema";
  marathon_json = "";
  package_json = "metadata";
  options_json = "";
  uninstall_json = "";
  api_config = end;
  user_config = end;
  name = "spark";
  version = "1.5";
  release = "0";
  framework = false;
  framework_name = "";
  value_transformers = value_transformers;
}

run_of_packages : get_packages consul codec store ≡ (ok (indexed ∷ []), store)
unfolding get_packages
run_of_packages = rw (catalog_made, run_of_index) refl

found_by_name :
    first (λ (p : Package). equal_fold (trim_space "spark") p.name) (indexed ∷ []) ≡ some indexed
unfolding first equal_fold trim_space
found_by_name = refl

run_by_name : get_package_by_name consul codec "spark" store ≡ (ok (some indexed), store)
unfolding get_package_by_name
run_by_name = rw run_of_packages (ap (λ o. (ok o, store)) found_by_name)

only_version :
    find_package_version indexed ""
    ≡ some (record { version = "1.5"; index = "0"; supported = false })
unfolding find_package_version mantl_api.Install.Package.get_package_version first package_versions
    values equal_fold trim_space
only_version = refl

abbrev texts : Texts
texts = record {
  command = "";
  config = "schema";
  marathon = "";
  metadata = "metadata";
  options = "";
  uninstall = "";
}

texts_read :
    load_all consul (nine ∷ ten ∷ []) (package_version_key indexed "0") store ≡ (ok texts, store)
unfolding load_all package_version_key mantl_api.Install.Package.package_key
    mantl_api.Install.Package.container_id mantl_api.Install.Fetch.load
    mantl_api.Install.Fetch.read_files mantl_api.Install.Fetch.definition_file
    mantl_api.Install.Fetch.overlay get mantl_api.Prelude.Slash.path_join
    mantl_api.Install.Fetch.definition_key mantl_api.Install.Repository.packages_key Int.show
    mantl_api.Prelude.Text.to_upper
texts_read = refl

abbrev bare_definition : PackageDefinition ℕ
bare_definition =
    definition_of indexed (record { version = "1.5"; index = "0"; supported = false }) end end texts

merged : merged_config codec mustache bare_definition ≡ ok (field "cpus" (str "4.00") end)
unfolding merged_config mantl_api.Install.Config.Render.config_schema mantl_api.Tests.parse
    mantl_api.Install.Config.Schema.decode equal_fold mantl_api.Json.to_string
    mantl_api.Install.Config.Render.options mantl_api.Install.Config.Merge.default_config
    mantl_api.Install.Config.Schema.put mantl_api.Install.Config.Transform.transformed
    mantl_api.Install.Config.Merge.merge_config mantl_api.Json.put
merged = refl

unnamed :
    get_config_val {N = ℕ} (field "cpus" (str "4.00") end) ("spark" ∷ "framework-name" ∷ []) ≡ none
unfolding get_config_val mantl_api.Json.get
unnamed = refl

pub run_of_fetch :
    get_package_definition consul codec mustache "spark" "" end end store ≡ (ok fetched, store)
unfolding get_package_definition mantl_api.Install.Fetch.completed
    mantl_api.Install.Config.Render.Sharing.user_config_after
run_of_fetch = rw (run_by_name, only_version, repositories, texts_read, merged, unnamed) refl

get_package_definition-Choice_example :
    (ps : List Package) × (w1 : Map String) × (pkg : Package) × (v : PackageVersion) × (get_packages
        consul codec store
      ≡ (ok ps, w1))
    × In pkg ps
    × (equal_fold (trim_space "spark") pkg.name ≡ true)
    × Choice pkg "" v
    × Of consul codec mustache pkg v end end fetched
get_package_definition-Choice_example =
    get_package_definition-Choice consul codec mustache "spark" "" end end fetched store store
      run_of_fetch
