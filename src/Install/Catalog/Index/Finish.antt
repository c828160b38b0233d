-- ===== src/Install/Catalog/Index/Finish.antt =====
-- Which versions of a package end up supported, and which one is current.
use mathlib.Core.Bool.{false≢true}
use mantl_api.Prelude.{
  String, ◌≡◌, refl, sym, ap, ◌∙◌, ◌⊎◌, ◌==◌, eq_iff, Bool, true, false, ◌||◌, Option, none, some,
  List, [], ◌∷◌, arith, inl, inr, Bool-cases, if◌then◌else◌,
}
use mantl_api.Prelude.Lists.{In}
use mantl_api.Prelude.Dict.{Map, get, values}
use mantl_api.Install.Package.{PackageVersion, Package, package_versions, find_latest}
use mantl_api.Install.Package.Versions.{find_latest-some, find_latest-In}
use mantl_api.Install.Catalog.Index.{Found, mark, current_of, mark_all, settle, finish}

-- some index of the list is the one given
pub listed : String → List String → Bool
listed index [] = false
listed index (i ∷ more) = i == index || listed index more

abbrev pub support : Bool → PackageVersion → PackageVersion
support b v = if b then record v { supported = true } else v

abbrev pub on_some :
    (PackageVersion → PackageVersion) → Option PackageVersion → Option PackageVersion
on_some f none = none
on_some f (some v) = some (f v)

pub get-mark :
    (index k : String) (m : Map PackageVersion)
    → get k (mark index m) ≡ on_some (λ v. support (index == v.index) v) (get k m)
unfolding get mark
get-mark index k [] = refl
get-mark index k ((j, v) ∷ m) = ground (arith, get-mark index k m)

support-support :
    (index : String) (more : List String) (o : Option PackageVersion)
    → on_some (λ v. support (listed v.index more) v) (on_some (λ v. support (index == v.index) v) o)
      ≡ on_some (λ v. support (listed v.index (index ∷ more)) v) o
unfolding listed
support-support index more none = refl
support-support index more (some v) = ground arith

get-mark_all :
    (k : String) (indexes : List String) (p : Package)
    → get k (mark_all indexes p).versions
      ≡ on_some (λ v. support (listed v.index indexes) v) (get k p.versions)
unfolding mark_all listed
get-mark_all k [] p = same (get k p.versions)
  where
    same : (o : Option PackageVersion) → o ≡ on_some (λ v. v) o
    same none = refl
    same (some v) = refl
get-mark_all k (index ∷ more) p =
    get-mark_all k more _
    ∙ ap (on_some (λ v. support (listed v.index more) v)) (get-mark index k p.versions)
    ∙ support-support index more (get k p.versions)

pub versions-settle : (p : Package) → (settle p).versions ≡ p.versions
unfolding settle
versions-settle p = ground arith

-- The indexed package has under each version what its keys gave, marked as supported if its index
-- is among those of the supported versions, and else with the mark that it had.
pub get-finish :
    (found : Found) (k : String)
    → get k (finish found).versions
      ≡ on_some
          (λ v. support (listed v.index found.supported_versions) v)
          (get k found.pkg.versions)
unfolding finish
get-finish found k =
    rw versions-settle
      (get-mark_all k found.supported_versions (record found.pkg { supported = found.supported }))

-- A version of the package that is supported and has the version given.
abbrev IsSupported : Package → String → Type 0
IsSupported p version =
    (v : PackageVersion) × In v (values p.versions) × (v.version ≡ version) × (v.supported ≡ true)

current_of-IsSupported :
    (index old : String) (m : Map PackageVersion)
    → (current_of index m old ≡ old)
      ⊎ ((v : PackageVersion) × In v (values (mark index m))
          × (v.version ≡ current_of index m old)
          × (v.supported ≡ true))
unfolding current_of mark values
current_of-IsSupported index old [] = inl refl
current_of-IsSupported index old ((k, v) ∷ m) = elim (Bool-cases (index == v.index)) [
  | inl e ↦ rw e (elim (current_of-IsSupported index v.version m) [
    | inl p ↦ inr (record v { supported = true }, inl refl, sym p, refl)
    | inr (w, here, p, s) ↦ inr (w, inr here, p, s)
  ])
  | inr e ↦ rw e (elim (current_of-IsSupported index old m) [
    | inl p ↦ inl p
    | inr (w, here, p, s) ↦ inr (w, inr here, p, s)
  ])
]

-- The current version is none yet, or a supported version of the package.
abbrev IsCurrent : Package → Type 0
IsCurrent p = (p.current_version ≡ "") ⊎ IsSupported p p.current_version

support_self : (b : Bool) (w : PackageVersion) → w.supported ≡ true → w ≡ support b w
support_self true w h = λ i. record w { supported = h i }
support_self false w h = refl

In-mark :
    (index : String) (v : PackageVersion) (m : Map PackageVersion)
    → In v (values m)
    → v.supported ≡ true
    → In v (values (mark index m))
unfolding mark values
In-mark index v [] here s = absurd here
In-mark index v ((k, w) ∷ m) here s = elim here [
  | inl p ↦ inl (p ∙ support_self (index == w.index) w (rw p at s))
  | inr r ↦ inr (In-mark index v m r s)
]

mark_all-IsCurrent :
    (indexes : List String) (p : Package) → IsCurrent p → IsCurrent (mark_all indexes p)
unfolding mark_all
mark_all-IsCurrent [] p h = h
mark_all-IsCurrent (index ∷ more) p h =
    mark_all-IsCurrent more _ (elim (current_of-IsSupported index p.current_version p.versions) [
      | inl same ↦ elim h [
        | inl q ↦ inl (same ∙ q)
        | inr (v, here, q, s) ↦ inr (v, In-mark index v p.versions here s, q ∙ sym same, s)
      ]
      | inr found ↦ inr found
    ])

find_latest_same :
    (p : Package) (s : String) → find_latest (record p { current_version = s }) ≡ find_latest p
unfolding find_latest package_versions
find_latest_same p s = refl

settle-current :
    (p : Package) (u : PackageVersion)
    → IsCurrent p
    → In u (values p.versions)
    → (v : PackageVersion) × In v (values (settle p).versions)
      × (v.version ≡ (settle p).current_version)
      × ((v.supported ≡ true) ⊎ (find_latest (settle p) ≡ some v))
unfolding settle package_versions
settle-current p u h m = elim (Bool-cases (p.current_version == "")) [
  | inl e ↦
      let (v, q) = find_latest-some p u m in
      rw (e, q) (v, find_latest-In p q, refl, inr (find_latest_same p v.version ∙ q))
  | inr e ↦ rw e (elim h [
    | inl none_yet ↦ absurd (false≢true (sym e ∙ (eq_iff p.current_version "").1 none_yet))
    | inr (v, here, q, s) ↦ (v, here, q, inl s)
  ])
]

-- For a package that had no current version before its keys were read, and that has a version: the
-- current version of the indexed package is one of its versions, and it is a supported one or the
-- latest.
pub finish-current :
    (found : Found) (u : PackageVersion)
    → found.pkg.current_version ≡ ""
    → In u (package_versions (finish found))
    → (v : PackageVersion) × In v (package_versions (finish found))
      × (v.version ≡ (finish found).current_version)
      × ((v.supported ≡ true) ⊎ (find_latest (finish found) ≡ some v))
unfolding finish package_versions
finish-current found u none_yet m =
    settle-current _ u
      (mark_all-IsCurrent found.supported_versions
        (record found.pkg { supported = found.supported }) (inl none_yet))
      (rw (← versions-settle) m)
