-- ===== src/Install/Package.antt =====
-- `PackageVersion`, `Package` and `PackageRequest` of install/package.go.
pub mod Versions
pub mod Choice
pub mod Unordered
pub mod Request
use mathlib.Core.Option.{get_or}
use Prim.Native.String.{[], ◌∷◌}
use mathlib.Core.List as L
use mantl_api.Prelude.{String, Bool, false, not, Option, none, some, List, ◌<◌, if◌then◌else◌, ltb}
use mantl_api.Prelude.Dict.{Map, values}
use mantl_api.Prelude.Lists.{length, select, first}
use mantl_api.Prelude.Sort.{sort}
use mantl_api.Prelude.Text.{less, equal_fold, trim_space, to_upper}
use mantl_api.Prelude.Slash.{path_join}
use mantl_api.Prelude.Outcome.{Result, ok, panic, ◌>>=◌}

pub record PackageVersion : Type 0 where
  pub version : String
  pub index : String
  pub supported : Bool

-- `packageVersionByMostRecent.Less`
unfoldable pub by_most_recent : PackageVersion → PackageVersion → Bool
by_most_recent p q = less q.index p.index

pub record Package : Type 0 where
  pub name : String
  pub description : String
  pub framework : Bool
  pub current_version : String
  pub supported : Bool
  pub tags : List String
  pub versions : Map PackageVersion

-- `NewPackage`
abbrev pub new_package : String → Package
new_package name = record {
  name = name;
  description = "";
  framework = false;
  current_version = "";
  supported = false;
  tags = L.[];
  versions = L.[];
}

-- `ContainerId` of a package with this name: it panics on an empty one.
container_id_of : String → Result String
container_id_of [] = panic
container_id_of (c ∷ s) = ok (to_upper (c ∷ []))

-- `ContainerId`
unfoldable pub container_id : Package → Result String
unfolding container_id_of
container_id p = container_id_of p.name

-- `PackageKey`
unfoldable pub package_key : Package → Result String
package_key p = do id ← container_id p; ok (path_join (L.◌∷◌ id (L.◌∷◌ p.name L.[])))

-- `PackageVersionKey`
unfoldable pub package_version_key : Package → String → Result String
package_version_key p index = do key ← package_key p; ok (path_join (L.◌∷◌ key (L.◌∷◌ index L.[])))

-- `PackageVersions`
unfoldable pub package_versions : Package → List PackageVersion
package_versions p = values p.versions

-- `SupportedVersions`
unfoldable pub supported_versions : Package → List PackageVersion
supported_versions p = select (λ v. v.supported) (package_versions p)

-- `HasSupportedVersion`
unfoldable pub has_supported_version : Package → Bool
has_supported_version p = ltb 0 (length (supported_versions p))

-- `GetPackageVersion`; `none` stands for `nil`.
unfoldable pub get_package_version : Package → String → Option PackageVersion
get_package_version p version =
    first (λ v. equal_fold v.version (trim_space version)) (package_versions p)

head : List PackageVersion → Option PackageVersion
head L.[] = none
head (L.◌∷◌ v vs) = some v

-- `FindLatestPackageVersion`
unfoldable pub find_latest : Package → Option PackageVersion
unfolding head
find_latest p = head (sort by_most_recent (package_versions p))

-- `FindLatestSupportedPackageVersion`
unfoldable pub find_latest_supported : Package → Option PackageVersion
find_latest_supported p = first (λ v. v.supported) (sort by_most_recent (package_versions p))

-- `if pkgVer == nil { pkgVer = next }`
or_next : Option PackageVersion → Option PackageVersion → Option PackageVersion
or_next none next = next
or_next (some v) next = some v

-- `FindPackageVersion`
unfoldable pub find_package_version : Package → String → Option PackageVersion
unfolding or_next
find_package_version p version = or_next (get_package_version p version) (
    or_next (get_package_version p p.current_version)
      (or_next (find_latest_supported p) (find_latest p)))
