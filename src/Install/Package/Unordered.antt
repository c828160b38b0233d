-- ===== src/Install/Package/Unordered.antt =====
-- That the order in which a `range` over the versions of a package yields them, which Go leaves
-- open, has no bearing on the version that is found.
use mantl_api.Prelude.{String, ◌≡◌, refl, ap, ◌∙◌, sym, true, ◌↔◌, Option, none, some}
use mantl_api.Prelude.Lists.{In}
use mantl_api.Prelude.Text.{less_antisymm}
use mantl_api.Install.Package.Versions.{
  find_latest-In, find_latest-last, find_latest-some, find_latest_supported-last,
}
use mantl_api.Install.Package.Choice.{
  Named, Last, LastSupported, get_package_version-Named, get_package_version-Unnamed,
  find_latest_supported-Unsupported, find_latest_supported-In,
}
use mantl_api.Install.Package.{
  PackageVersion, Package, package_versions, get_package_version, find_latest,
  find_latest_supported, find_package_version,
}

-- what describes at most one value, and two searches that find it if there is one
module _ {A : Type 0} where
  abbrev Finds : (A → Type 0) → Option A → Type 0
  Finds P o = ((a : A) → o ≡ some a → P a) × (o ≡ none → (a : A) → ¬ P a)

  Finds-unique :
      (P : A → Type 0) (o o' : Option A)
      → ((a b : A) → P a → P b → a ≡ b)
      → Finds P o
      → Finds P o'
      → o ≡ o'
  Finds-unique P none none one f g = refl
  Finds-unique P none (some b) one f g = absurd (f.1 refl b (g.0 b refl))
  Finds-unique P (some a) none one f g = absurd (g.1 refl a (f.0 a refl))
  Finds-unique P (some a) (some b) one f g = ap some (one a b (f.0 a refl) (g.0 b refl))

-- The same versions, each any number of times and in any order.
abbrev pub SameVersions : Package → Package → Type 0
SameVersions p q = (v : PackageVersion) → In v (package_versions p) ↔ In v (package_versions q)

-- No two versions go by one name.
abbrev pub OneNamed : Package → String → Type 0
OneNamed p version = (u v : PackageVersion) → Named p version u → Named p version v → u ≡ v

-- No two versions have one index.
abbrev pub OneIndexed : Package → Type 0
OneIndexed p =
    (u v : PackageVersion)
    → In u (package_versions p)
    → In v (package_versions p)
    → u.index ≡ v.index
    → u ≡ v

module _ (p q : Package) (same : SameVersions p q) where
  get_package_version-Finds :
      (version : String) → Finds (Named p version) (get_package_version p version)
  get_package_version-Finds version = (
    λ a h. get_package_version-Named p version h,
    λ h a m. cc (get_package_version-Unnamed p version h a m.0, m.1),
  )

  get_package_version-Finds_same :
      (version : String) → Finds (Named p version) (get_package_version q version)
  get_package_version-Finds_same version = (
    λ a h. let (m, e) = get_package_version-Named q version {v = a} h in ((same a).1 m, e),
    λ h a m. cc (get_package_version-Unnamed q version h a ((same a).0 m.0), m.1),
  )

  pub get_package_version-same :
      (version : String)
      → OneNamed p version
      → get_package_version p version ≡ get_package_version q version
  get_package_version-same version one =
      Finds-unique (Named p version) (get_package_version p version) (get_package_version q version)
        one (get_package_version-Finds version) (get_package_version-Finds_same version)

  LatestSupported : PackageVersion → Type 0
  LatestSupported v = In v (package_versions p) × (v.supported ≡ true) × LastSupported p v

  LatestSupported-unique :
      OneIndexed p → (u v : PackageVersion) → LatestSupported u → LatestSupported v → u ≡ v
  unfolding LatestSupported
  LatestSupported-unique one u v (m, e, h) (n, f, k) =
      one u v m n (less_antisymm u.index v.index (h v n f) (k u m e))

  find_latest_supported-Finds : Finds LatestSupported (find_latest_supported p)
  unfolding LatestSupported
  find_latest_supported-Finds = (
    λ v h.
        let (m, e) = find_latest_supported-In p {v = v} h in
        (m, e, λ u n f. (find_latest_supported-last p u {v = v} h n f).2),
    λ h v m. cc (find_latest_supported-Unsupported p h v m.0, m.1),
  )

  find_latest_supported-Finds_same : Finds LatestSupported (find_latest_supported q)
  unfolding LatestSupported
  find_latest_supported-Finds_same = (
    λ v h.
        let (m, e) = find_latest_supported-In q {v = v} h in
        ((same v).1 m, e, λ u n f. (find_latest_supported-last q u {v = v} h ((same u).0 n) f).2),
    λ h v m. cc (find_latest_supported-Unsupported q h v ((same v).0 m.0), m.1),
  )

  Latest : PackageVersion → Type 0
  Latest v = In v (package_versions p) × Last p v

  Latest-unique : OneIndexed p → (u v : PackageVersion) → Latest u → Latest v → u ≡ v
  unfolding Latest
  Latest-unique one u v (m, h) (n, k) = one u v m n (less_antisymm u.index v.index (h v n) (k u m))

  find_latest-Finds : Finds Latest (find_latest p)
  unfolding Latest
  find_latest-Finds = (
    λ v h. (find_latest-In p {v = v} h, λ u n. (find_latest-last p u {v = v} h n).1),
    λ h v m. let (u, e) = find_latest-some p v m.0 in cc (sym h ∙ e),
  )

  find_latest-Finds_same : Finds Latest (find_latest q)
  unfolding Latest
  find_latest-Finds_same = (
    λ v h. (
      (same v).1 (find_latest-In q {v = v} h),
      λ u n. (find_latest-last q u {v = v} h ((same u).0 n)).1,
    ),
    λ h v m. let (u, e) = find_latest-some q v ((same v).0 m.0) in cc (sym h ∙ e),
  )

  -- Two packages with the same versions in any order and the same current version choose the same
  -- version for a request, or none, if no two versions have one index, and no two are named as the
  -- request or as the current version is, case folded and trimmed.
  pub find_package_version-same :
      (version : String)
      → p.current_version ≡ q.current_version
      → OneIndexed p
      → OneNamed p version
      → OneNamed p p.current_version
      → find_package_version p version ≡ find_package_version q version
  unfolding find_package_version
  find_package_version-same version c one_index one_version one_current =
      rw
        (
          get_package_version-same version one_version,
          get_package_version-same p.current_version one_current,
          Finds-unique LatestSupported (find_latest_supported p) (find_latest_supported q)
              (LatestSupported-unique one_index) find_latest_supported-Finds
              find_latest_supported-Finds_same,
          Finds-unique Latest (find_latest p) (find_latest q) (Latest-unique one_index)
              find_latest-Finds find_latest-Finds_same,
          c,
        )
        refl
