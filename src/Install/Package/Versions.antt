-- ===== src/Install/Package/Versions.antt =====
-- What the searches for a version return: a version of the package, the last in the order of the
-- indexes, and one whenever there is any.
use mantl_api.Prelude.{◌≡◌, refl, true, false, some, List, [], ◌∷◌, arith, inl, inr, Bool-cases}
use mantl_api.Prelude.Lists.{In, All-In, first-In}
use mantl_api.Prelude.Sort.{IsOrder, IsSorted, sort, In-sort, sort-IsSorted, first-IsSorted}
use mantl_api.Prelude.Text.{less, less-IsOrder}
use mantl_api.Install.Package.{
  PackageVersion, Package, by_most_recent, package_versions, head, find_latest,
  find_latest_supported,
}

by_most_recent-IsOrder : IsOrder by_most_recent
unfolding by_most_recent
by_most_recent-IsOrder = record {
  asymm = λ a b h. less-IsOrder.asymm b.index a.index h;
  trans = λ a b c h k. less-IsOrder.trans c.index b.index a.index k h;
}

by_most_recent_irrefl : (v : PackageVersion) → by_most_recent v v ≡ false
by_most_recent_irrefl v = elim (Bool-cases (by_most_recent v v)) [
  | inl e ↦ by_most_recent-IsOrder.asymm v v e
  | inr e ↦ e
]

abbrev sorted_versions : Package → List PackageVersion
sorted_versions p = sort by_most_recent (package_versions p)

head-IsSorted :
    (xs : List PackageVersion) (u : PackageVersion) {v : PackageVersion}
    → IsSorted by_most_recent xs
    → head xs ≡ some v
    → In u xs
    → In v xs × (by_most_recent u v ≡ false)
unfolding head
head-IsSorted [] u s h m = absurd m
head-IsSorted (x ∷ xs) u {v} s h m =
    let p : v ≡ x = ground arith in
    (
      inl p,
      elim m [
        | inl q ↦ rw (q, p) (by_most_recent_irrefl x)
        | inr r ↦ rw p (All-In (λ y. by_most_recent y x ≡ false) xs u s.0 r)
      ],
    )

-- The latest version is one of the package's, and no version of the package has an index that
-- comes behind its index in the order of texts.
pub find_latest-last :
    (p : Package) (u : PackageVersion) {v : PackageVersion}
    → find_latest p ≡ some v
    → In u (package_versions p)
    → In v (package_versions p) × (less v.index u.index ≡ false)
unfolding find_latest
find_latest-last p u {v} h m =
    let vs = package_versions p in
    let (m', last) =
      head-IsSorted (sort by_most_recent vs) u {v = v}
        (sort-IsSorted by_most_recent by_most_recent-IsOrder vs) h
        ((In-sort by_most_recent u vs).1 m) in
    ((In-sort by_most_recent v vs).0 m', unfold by_most_recent in last)

head-cons :
    (xs : List PackageVersion) (u : PackageVersion)
    → In u xs
    → (v : PackageVersion) × (head xs ≡ some v)
unfolding head
head-cons [] u m = absurd m
head-cons (x ∷ xs) u m = (x, refl)

-- A package with a version has a latest one.
pub find_latest-some :
    (p : Package) (u : PackageVersion)
    → In u (package_versions p)
    → (v : PackageVersion) × (find_latest p ≡ some v)
unfolding find_latest
find_latest-some p u m = head-cons _ u ((In-sort by_most_recent u (package_versions p)).1 m)

-- The latest supported version is a supported version of the package, and no supported version of
-- the package has an index that comes behind its index in the order of texts.
pub find_latest_supported-last :
    (p : Package) (u : PackageVersion) {v : PackageVersion}
    → find_latest_supported p ≡ some v
    → In u (package_versions p)
    → u.supported ≡ true
    → In v (package_versions p) × (v.supported ≡ true) × (less v.index u.index ≡ false)
unfolding find_latest_supported
find_latest_supported-last p u {v} h m t =
    let vs = package_versions p in
    let (m', t') =
      first-In (λ (w : PackageVersion). w.supported) (sort by_most_recent vs) {a = v} h in
    (
      (In-sort by_most_recent v vs).0 m',
      t',
      unfold by_most_recent in
          first-IsSorted by_most_recent (λ w. w.supported) (sort by_most_recent vs) u {a = v}
            by_most_recent_irrefl (sort-IsSorted by_most_recent by_most_recent-IsOrder vs) h
            ((In-sort by_most_recent u vs).1 m) t,
    )

head-In : (xs : List PackageVersion) {v : PackageVersion} → head xs ≡ some v → In v xs
unfolding head
head-In [] h = cc
head-In (x ∷ xs) h = inl (cc)

pub find_latest-In :
    (p : Package) {v : PackageVersion} → find_latest p ≡ some v → In v (package_versions p)
unfolding find_latest
find_latest-In p {v} h = (In-sort by_most_recent v (package_versions p)).0 (head-In _ h)
