-- ===== src/Install/Package/Choice.antt =====
-- The order in which `FindPackageVersion` prefers versions.
use mantl_api.Prelude.{String, ◌≡◌, refl, ◌∙◌, true, false, Option, none, some}
use mantl_api.Prelude.Lists.{In, first-In, first-none}
use mantl_api.Prelude.Sort.{sort, In-sort}
use mantl_api.Prelude.Text.{less, equal_fold, trim_space}
use mantl_api.Install.Package.Versions.{
  find_latest-In, find_latest-last, find_latest-some, find_latest_supported-last,
}
use mantl_api.Install.Package.{
  PackageVersion, Package, by_most_recent, package_versions, get_package_version, find_latest,
  find_latest_supported, or_next, find_package_version,
}

-- What the code promises of the version it chooses, first choice first: the version that was asked
-- for, the package's current version, its latest supported version, its latest version.
abbrev pub Named : Package → String → PackageVersion → Type 0
Named p version v = In v (package_versions p) × (equal_fold v.version (trim_space version) ≡ true)

abbrev pub Unnamed : Package → String → Type 0
Unnamed p version =
    (u : PackageVersion)
    → In u (package_versions p)
    → equal_fold u.version (trim_space version) ≡ false

abbrev pub Unsupported : Package → Type 0
Unsupported p = (u : PackageVersion) → In u (package_versions p) → u.supported ≡ false

abbrev pub Last : Package → PackageVersion → Type 0
Last p v = (u : PackageVersion) → In u (package_versions p) → less v.index u.index ≡ false

abbrev pub LastSupported : Package → PackageVersion → Type 0
LastSupported p v =
    (u : PackageVersion)
    → In u (package_versions p)
    → u.supported ≡ true
    → less v.index u.index ≡ false

pub data Choice (p : Package) (version : String) (v : PackageVersion) : Type 0 where
  requested : Named p version v → Choice p version v
  current : Unnamed p version → Named p p.current_version v → Choice p version v
  latest_supported :
      Unnamed p version
      → Unnamed p p.current_version
      → In v (package_versions p)
      → v.supported ≡ true
      → LastSupported p v
      → Choice p version v
  latest :
      Unnamed p version
      → Unnamed p p.current_version
      → Unsupported p
      → In v (package_versions p)
      → Last p v
      → Choice p version v

pub get_package_version-Named :
    (p : Package) (version : String) {v : PackageVersion}
    → get_package_version p version ≡ some v
    → Named p version v
unfolding get_package_version
get_package_version-Named p version {v} h = first-In _ (package_versions p) {a = v} h

pub get_package_version-Unnamed :
    (p : Package) (version : String) → get_package_version p version ≡ none → Unnamed p version
unfolding get_package_version
get_package_version-Unnamed p version h u m = first-none _ (package_versions p) u h m

pub find_latest_supported-Unsupported :
    (p : Package) → find_latest_supported p ≡ none → Unsupported p
unfolding find_latest_supported
find_latest_supported-Unsupported p h u m =
    first-none _ (sort by_most_recent (package_versions p)) u h
      ((In-sort by_most_recent u (package_versions p)).1 m)

pub find_latest_supported-In :
    (p : Package) {v : PackageVersion}
    → find_latest_supported p ≡ some v
    → In v (package_versions p) × (v.supported ≡ true)
unfolding find_latest_supported
find_latest_supported-In p {v} h =
    let (m, t) = first-In _ (sort by_most_recent (package_versions p)) {a = v} h in
    ((In-sort by_most_recent v (package_versions p)).0 m, t)

chosen :
    (p : Package) (version : String) (a b s l : Option PackageVersion) (v : PackageVersion)
    → get_package_version p version ≡ a
    → get_package_version p p.current_version ≡ b
    → find_latest_supported p ≡ s
    → find_latest p ≡ l
    → or_next a (or_next b (or_next s l)) ≡ some v
    → Choice p version v
unfolding or_next
chosen p version (some a) b s l v ha hb hs hl h =
    requested (get_package_version-Named p version (ha ∙ h))
chosen p version none (some b) s l v ha hb hs hl h =
    current (get_package_version-Unnamed p version ha)
      (get_package_version-Named p p.current_version (hb ∙ h))
chosen p version none none (some s) l v ha hb hs hl h =
    latest_supported (get_package_version-Unnamed p version ha)
      (get_package_version-Unnamed p p.current_version hb) (find_latest_supported-In p (hs ∙ h)).0
      (find_latest_supported-In p (hs ∙ h)).1
      (λ u m t. (find_latest_supported-last p u (hs ∙ h) m t).2)
chosen p version none none none l v ha hb hs hl h =
    latest (get_package_version-Unnamed p version ha)
      (get_package_version-Unnamed p p.current_version hb) (find_latest_supported-Unsupported p hs)
      (find_latest-In p (hl ∙ h)) (λ u m. (find_latest-last p u (hl ∙ h) m).1)

-- A version that `FindPackageVersion` returns is the one that is asked for, case folded and
-- trimmed; or, if the package has none such, the one that is named as its current version; or, if
-- it has none such either, a supported version with the last index of the supported ones; or, if
-- none is supported, a version with the last index. Indexes are in the order of texts.
pub find_package_version-Choice :
    (p : Package) (version : String) {v : PackageVersion}
    → find_package_version p version ≡ some v
    → Choice p version v
unfolding find_package_version
find_package_version-Choice p version {v} h = chosen p version _ _ _ _ v refl refl refl refl h

or_next-some :
    (o next : Option PackageVersion)
    → (v : PackageVersion) × (next ≡ some v)
    → (v : PackageVersion) × (or_next o next ≡ some v)
unfolding or_next
or_next-some none next h = h
or_next-some (some v) next h = (v, refl)

-- If a package has a version, `FindPackageVersion` returns one, whatever version is asked for.
pub find_package_version-some :
    (p : Package) (version : String) (u : PackageVersion)
    → In u (package_versions p)
    → (v : PackageVersion) × (find_package_version p version ≡ some v)
unfolding find_package_version
find_package_version-some p version u m =
    let (l, e) = find_latest-some p u m in
    let by_version = get_package_version p version in
    let by_current = get_package_version p p.current_version in
    let supported = find_latest_supported p in
    rw e (
      or_next-some by_version (or_next by_current (or_next supported (some l))) (
        or_next-some by_current (or_next supported (some l))
          (or_next-some supported (some l) (l, refl))))
