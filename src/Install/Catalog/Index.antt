-- ===== src/Install/Catalog/Index.antt =====
-- `packagesIndex` and `packageMeta` of install/catalog.go, and `getPackages` and
-- `getPackageByName` of install/package.go.
pub mod Finish
pub mod Names
pub mod Steps
pub mod Keyed
use Prim.Native.String as S
use mantl_api.Prelude.{
  String, ◌==◌, Bool, true, false, ◌||◌, Option, none, some, List, [], ◌∷◌, ◌++◌, if◌then◌else◌,
}
use mantl_api.Prelude.Lists.{first}
use mantl_api.Prelude.Dict.{Map, put}
use mantl_api.Prelude.Text.{equal_fold, trim_space}
use mantl_api.Prelude.Outcome.{Result, ok, err, panic}
use mantl_api.Prelude.Outcome as R
use mantl_api.Prelude.Exec.{Exec, pure, lift, ◌>>=◌, attempt}
use mantl_api.Json as J
use mantl_api.Json.{Value, bool, str, arr, obj, Items, nil, cons, Fields, Codec}
use mantl_api.Consul.{Consul}
use mantl_api.Install.Package.{PackageVersion, Package, new_package, find_latest}
use mantl_api.Install.Repository.{repository_root, last_part}
use mantl_api.Install.Catalog.{Catalog, new_package_catalog, names, package_keys}

-- What the loop over a package's keys has found.
pub record Found : Type 0 where
  pub pkg : Package
  pub supported : Bool
  pub supported_versions : List String

-- A version of the package is supported if its index is the one given.
unfoldable pub mark : String → Map PackageVersion → Map PackageVersion
mark index [] = []
mark index ((k, v) ∷ m) =
    (k, (if index == v.index then record v { supported = true } else v)) ∷ mark index m

-- The version with the given index, the last one that the loop over the map meets, or the old one.
unfoldable pub current_of : String → Map PackageVersion → String → String
current_of index [] old = old
current_of index ((k, v) ∷ m) old = current_of index m (if index == v.index then v.version else old)

unfoldable pub mark_all : List String → Package → Package
unfolding mark current_of
mark_all [] p = p
mark_all (index ∷ more) p = mark_all more (record p {
  versions = mark index p.versions;
  current_version = current_of index p.versions p.current_version;
})

latest_or_none : Option PackageVersion → String
latest_or_none none = ""
latest_or_none (some v) = v.version

-- `if pkg.CurrentVersion == "" { … }`
unfoldable pub settle : Package → Package
unfolding latest_or_none
settle p =
    if p.current_version == ""
    then record p { current_version = latest_or_none (find_latest p) }
    else p

-- the end of the loop over the names
unfoldable pub finish : Found → Package
finish found =
    settle (mark_all found.supported_versions (record found.pkg { supported = found.supported }))

module _ {N : Type 0} where
  -- `v.(string)` and `v.(bool)` with no comma ok
  must_string : Value N → Result String
  must_string (str s) = ok s
  must_string _ = panic

  must_bool : Value N → Result Bool
  must_bool (bool b) = ok b
  must_bool _ = panic

  must_strings : Items N → Result (List String)
  unfolding must_string
  must_strings nil = ok []
  must_strings (cons v vs) =
      R.◌>>=◌ (must_string v) λ s. R.◌>>=◌ (must_strings vs) λ rest. ok (s ∷ rest)

  description_in : Option (Value N) → Package → Result Package
  description_in none p = ok p
  description_in (some v) p = R.◌>>=◌ (must_string v) λ s. ok (record p { description = s })

  framework_in : Option (Value N) → Package → Result Package
  framework_in none p = ok p
  framework_in (some v) p = R.◌>>=◌ (must_bool v) λ b. ok (record p { framework = b })

  tags_in : Option (Value N) → Package → Result Package
  tags_in (some (arr vs)) p = R.◌>>=◌ (must_strings vs) λ tags. ok (record p { tags = tags })
  tags_in _ p = ok p

  version_in : Option (Value N) → String → Package → Result Package
  version_in none index p = panic
  version_in (some v) index p = R.◌>>=◌ (must_string v) λ version. ok (record p {
    versions =
        put version (record { version = version; index = index; supported = false }) p.versions;
  })

  -- the metadata of one version, stored into its package
  unfoldable pub apply_meta : Fields N → String → Package → Result Package
  unfolding must_string must_bool must_strings description_in framework_in tags_in version_in
  apply_meta meta index p = R.◌>>=◌ (description_in (J.get "description" meta) p) λ p1.
      R.◌>>=◌ (framework_in (J.get "framework" meta) p1) λ p2.
        R.◌>>=◌ (tags_in (J.get "tags" meta) p2) λ p3. version_in (J.get "version" meta) index p3

  apply_found : Option (Fields N) → String → Package → Result Package
  unfolding apply_meta
  apply_found none index p = ok p
  apply_found (some meta) index p = apply_meta meta index p

  -- `json.Unmarshal` into a map: nil for `null`, and nothing to use for an error
  meta_of : Result (Value N) → Result (Option (Fields N))
  meta_of (ok (obj m)) = ok (some m)
  meta_of panic = panic
  meta_of _ = ok none

module _ {W N : Type 0} (consul : Consul W) (c : Codec N) where
  is_there : Option String → Bool
  is_there none = false
  is_there (some v) = true

  -- `keyExists`: an error is as a key that is not there.
  unfoldable pub key_exists : String → Exec W Bool
  unfolding is_there
  key_exists key = attempt (consul.get key) (λ kp. pure (is_there kp)) (λ e. pure false)

  meta_in : Option String → Result (Option (Fields N))
  unfolding meta_of
  meta_in none = ok none
  meta_in (some text) = meta_of (c.parse text)

  -- `packageMeta`
  unfoldable pub package_meta : String → Exec W (Option (Fields N))
  unfolding meta_in
  package_meta key =
      attempt (consul.get (S.◌++◌ key "package.json")) (λ kp. lift (meta_in kp)) (λ e. pure none)

  -- the loop over the keys of one package
  unfoldable pub index_keys : List String → Found → Exec W Found
  unfolding apply_found
  index_keys [] found = pure found
  index_keys (key ∷ keys) found = key_exists (S.◌++◌ key "mantl.json") >>= λ has.
      package_meta key >>= λ meta. lift (apply_found meta (last_part key) found.pkg) >>= λ p.
      index_keys keys (record {
        pkg = p;
        supported = has || found.supported;
        supported_versions =
            if has
            then found.supported_versions ++ last_part key ∷ []
            else found.supported_versions;
      })

  -- one package
  unfoldable pub index_package : Catalog → String → Exec W Package
  index_package catalog name =
      index_keys (package_keys catalog name)
        (record { pkg = new_package name; supported = false; supported_versions = [] })
      >>= λ found. pure (finish found)

  unfoldable pub index_packages : Catalog → List String → Exec W (List Package)
  index_packages catalog [] = pure []
  index_packages catalog (name ∷ more) =
      index_package catalog name >>= λ p. index_packages catalog more >>= λ rest. pure (p ∷ rest)

  -- `packagesIndex`
  unfoldable pub packages_index : Catalog → Exec W (List Package)
  packages_index catalog = index_packages catalog (names catalog)

  -- `getPackages`, which `Packages` calls
  unfoldable pub get_packages : Exec W (List Package)
  get_packages = new_package_catalog consul repository_root >>= packages_index

  -- `getPackageByName`, which `Package` calls; `none` stands for `nil`.
  unfoldable pub get_package_by_name : String → Exec W (Option Package)
  get_package_by_name name =
      get_packages >>= λ packages. pure (first (λ p. equal_fold (trim_space name) p.name) packages)
