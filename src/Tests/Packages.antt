-- ===== src/Tests/Packages.antt =====
-- Runs of install/package.go, install/catalog.go and install/repository.go on one package.
use mantl_api.Prelude.{
  ℕ, String, ◌≡◌, refl, ◌≢◌, ◌↔◌, ◌==◌, Bool, true, false, Option, none, some, List, [], ◌∷◌, ◌⊎◌,
  inl, inr,
}
use mantl_api.Prelude.Dict.{Map, get, values}
use mantl_api.Prelude.Lists.{In}
use text.Mathlib.TextEquality.{eq_iff}
use mantl_api.Prelude.Int
use mantl_api.Prelude.Int.{ℤ, pos}
use mantl_api.Prelude.Sort.{IsSorted}
use mantl_api.Prelude.Text.{less}
use mantl_api.Prelude.Outcome.{Result, ok}
use mantl_api.Install.Package.{
  PackageVersion, Package, package_versions, find_latest, find_package_version,
}
use mantl_api.Install.Package.Unordered.{
  SameVersions, OneIndexed, OneNamed, find_package_version-same,
}
use mantl_api.Install.Package.Choice.{Choice, find_package_version-Choice}
use mantl_api.Install.Repository.{Repository, repository_indexes, get_repositories}
use mantl_api.Install.Repository.Order.{Ordered, get_repositories-IsSorted}
use mantl_api.Install.Catalog.Index.{Found, finish}
use mantl_api.Install.Catalog.Index.Finish.{finish-current}
use mantl_api.Install.Fetch.{Texts, load_all}
use mantl_api.Install.Fetch.Layers.{config, text_of, text_in, load_all-last}
use mantl_api.Prelude.{map}
use mantl_api.Prelude.Sort.{sort}
use mantl_api.Install.Catalog.{Catalog, new_package_catalog, package_keys}
use mantl_api.Install.Catalog.Index.{packages_index}
use mantl_api.Prelude.{ap, sym, ◌∙◌}
use mantl_api.Prelude.Lists.{first}
use mantl_api.Prelude.Text.{equal_fold, trim_space}
use mantl_api.Install.Package.{package_version_key}
use mantl_api.Install.Catalog.Index.{get_packages, get_package_by_name}
use mantl_api.Install.Fetch.{definition_of, get_package_definition}
use mantl_api.Tests.{consul, store}

abbrev old : PackageVersion
old = record { version = "1.4"; index = "0"; supported = true }

abbrev new : PackageVersion
new = record { version = "1.5"; index = "1"; supported = false }

abbrev spark : Package
spark = record {
  name = "spark";
  description = "";
  framework = true;
  current_version = "";
  supported = true;
  tags = [];
  versions = ("1.4", old) ∷ ("1.5", new) ∷ [];
}

chosen : find_package_version spark "" ≡ some old
unfolding find_package_version mantl_api.Install.Package.get_package_version
    mantl_api.Prelude.Lists.first package_versions values mantl_api.Prelude.Text.equal_fold
    mantl_api.Prelude.Text.trim_space mantl_api.Install.Package.find_latest_supported
    mantl_api.Prelude.Sort.sort mantl_api.Install.Package.by_most_recent less
chosen = refl

find_package_version-Choice_example : Choice spark "" old
find_package_version-Choice_example = find_package_version-Choice spark "" {v = old} chosen

-- the same package, after another range over the same map
abbrev shuffled : Package
shuffled = record spark { versions = ("1.5", new) ∷ ("1.4", old) ∷ [] }

swap : {x y : PackageVersion} (v : PackageVersion) → In v (x ∷ y ∷ []) → In v (y ∷ x ∷ [])
swap v h = elim h [ inl p ↦ inr (inl p) | inr m ↦ elim m [ inl p ↦ inl p | inr f ↦ absurd f ] ]

same_versions : SameVersions spark shuffled
unfolding package_versions values
same_versions v = (swap v, swap v)

apart : {s t : String} → "0" ≡ s → s ≡ t → t ≡ "1" → ⊥
apart a b c = let h : ("0" == "1") ≡ true = (eq_iff "0" "1").1 (a ∙ b ∙ c) in cc h

one_index : OneIndexed spark
unfolding package_versions values
one_index u v m n e = elim m [
  | inl p ↦ elim n [
    | inl q ↦ p ∙ sym q
    | inr n' ↦ elim n' [
      | inl q ↦ absurd (
          apart (sym (ap (λ (x : PackageVersion). x.index) p)) e
            (ap (λ (x : PackageVersion). x.index) q))
      | inr f ↦ absurd f
    ]
  ]
  | inr m' ↦ elim m' [
    | inl p ↦ elim n [
      | inl q ↦ absurd (
          apart (sym (ap (λ (x : PackageVersion). x.index) q)) (sym e)
            (ap (λ (x : PackageVersion). x.index) p))
      | inr n' ↦ elim n' [ inl q ↦ p ∙ sym q | inr f ↦ absurd f ]
    ]
    | inr f ↦ absurd f
  ]
]

nameless :
    {u v : PackageVersion} (w : PackageVersion)
    → u ≡ w
    → equal_fold u.version "" ≡ true
    → equal_fold w.version "" ≡ false
    → u ≡ v
nameless w p e n = cc (ap (λ x. equal_fold x.version "") p, e, n)

unnamed : OneNamed spark ""
unfolding package_versions values equal_fold trim_space
unnamed u v (m, e) k = elim m [
  | inl p ↦ nameless old p e refl
  | inr m' ↦ elim m' [ inl p ↦ nameless new p e refl | inr f ↦ absurd f ]
]

find_package_version-same_example : find_package_version spark "" ≡ find_package_version shuffled ""
find_package_version-same_example =
    find_package_version-same spark shuffled same_versions "" refl one_index unnamed unnamed

abbrev found : Found
found = record { pkg = spark; supported = true; supported_versions = "0" ∷ [] }

old_is_left : In old (package_versions (finish found))
unfolding package_versions values finish mantl_api.Install.Catalog.Index.settle
    mantl_api.Install.Catalog.Index.mark_all
old_is_left = inl refl

finish-current_example :
    (v : PackageVersion) × In v (package_versions (finish found))
    × (v.version ≡ (finish found).current_version)
    × ((v.supported ≡ true) ⊎ (find_latest (finish found) ≡ some v))
finish-current_example = finish-current found old refl old_is_left

abbrev pub nine : Repository
nine = record { name = "a"; index = pos 9 }

abbrev pub ten : Repository
ten = record { name = ""; index = pos 10 }

indexes : repository_indexes consul store ≡ (ok (pos 9 ∷ pos 10 ∷ []), store)
unfolding repository_indexes mantl_api.Prelude.Sort.sort mantl_api.Install.Repository.indexes_of
    Int.atoi mantl_api.Install.Repository.last_part mantl_api.Prelude.Text.split
    mantl_api.Prelude.Text.trim_suffix Int.int_less
indexes = refl

pub repositories : get_repositories consul store ≡ (ok (nine ∷ ten ∷ []), store)
unfolding get_repositories repository_indexes mantl_api.Install.Repository.named
    mantl_api.Prelude.Sort.sort mantl_api.Install.Repository.indexes_of Int.atoi
    mantl_api.Install.Repository.last_part mantl_api.Prelude.Text.split
    mantl_api.Prelude.Text.trim_suffix Int.int_less mantl_api.Install.Repository.repository_name get
    mantl_api.Prelude.Slash.path_join Int.show
repositories = refl

get_repositories-IsSorted_example : Ordered consul (nine ∷ ten ∷ [])
get_repositories-IsSorted_example =
    get_repositories-IsSorted consul store store (nine ∷ ten ∷ []) repositories

answers :
    (key : String)
    → Path
        (Result (Option String) × Map String)
        (ok (get key store), store)
        (ok (get key store), store)
answers key = refl

present : (text_in consul store (λ key. get key store) "S/spark/0" config nine == "") ≡ false
unfolding get mantl_api.Prelude.Slash.path_join mantl_api.Install.Fetch.definition_key
    mantl_api.Install.Repository.packages_key Int.show
present = refl

absent : text_in consul store (λ key. get key store) "S/spark/0" config ten ≡ ""
unfolding get mantl_api.Prelude.Slash.path_join mantl_api.Install.Fetch.definition_key
    mantl_api.Install.Repository.packages_key Int.show
absent = refl

load_all-last_example :
    (texts : Texts) × (load_all consul (nine ∷ ten ∷ []) (ok "S/spark/0") store ≡ (ok texts, store))
    × (text_of config texts ≡ text_in consul store (λ key. get key store) "S/spark/0" config nine)
load_all-last_example =
    load_all-last consul store (λ key. get key store) "S/spark/0" [] nine (ten ∷ []) config answers
      present (absent, tt)
