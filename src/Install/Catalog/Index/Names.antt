-- ===== src/Install/Catalog/Index/Names.antt =====
-- Which packages are indexed: those of the catalog, by their names, in order.
use mathlib.Core.Path.{subst}
use mantl_api.Prelude.{
  String, ◌≡◌, refl, sym, ap, ◌∙◌, ◌↔◌, ◌==◌, false, List, [], ◌∷◌, map, inl, inr, Bool-cases,
}
use mantl_api.Prelude.Dict.{keys}
use mantl_api.Prelude.Lists.{In}
use mantl_api.Prelude.Sort.{sort, IsSorted, In-sort, sort-IsSorted}
use mantl_api.Prelude.Text.{less, less-IsOrder}
use mantl_api.Prelude.Outcome.{ok, ok-injective}
use mantl_api.Prelude.Exec.{>>=-eq-ok}
use mantl_api.Json.{Codec}
use mantl_api.Consul.{Consul}
use mantl_api.Install.Package.{Package, new_package}
use mantl_api.Install.Catalog.{Catalog, names, package_keys}
use mantl_api.Install.Catalog.Index.Steps.{IsKept, index_keys-Keeps}
use mantl_api.Install.Catalog.Index.{
  Found, mark_all, settle, finish, index_keys, index_package, index_packages, packages_index,
}

name-mark_all : (indexes : List String) (p : Package) → (mark_all indexes p).name ≡ p.name
unfolding mark_all
name-mark_all [] p = refl
name-mark_all (i ∷ more) p = name-mark_all more _

name-settle : (p : Package) → (settle p).name ≡ p.name
unfolding settle
name-settle p = elim (Bool-cases (p.current_version == "")) [
  | inl e ↦ rw e refl
  | inr e ↦ rw e refl
]

name-finish : (found : Found) → (finish found).name ≡ found.pkg.name
unfolding finish
name-finish found =
    name-settle
      (mark_all found.supported_versions (record found.pkg { supported = found.supported }))
    ∙ name-mark_all found.supported_versions (record found.pkg { supported = found.supported })

kept : (name : String) → IsKept (λ (p : Package). p.name ≡ name)
kept name = record {
  described = λ p s h. h;
  framed = λ p b h. h;
  tagged = λ p ts h. h;
  versioned = λ p version index h. h;
}

module _ {W N : Type 0} (consul : Consul W) (c : Codec N) where
  name-index_package :
      (catalog : Catalog) (name : String) (p : Package) (w w' : W)
      → index_package consul c catalog name w ≡ (ok p, w')
      → p.name ≡ name
  unfolding index_package
  name-index_package catalog name p w w' h =
      let (found, w1, a, e) =
        >>=-eq-ok _
          (index_keys consul c (package_keys catalog name)
            (record { pkg = new_package name; supported = false; supported_versions = [] }))
          w h in
      ap (λ (q : Package). q.name) (sym (ok-injective (ap (λ z. z.0) e)))
      ∙ name-finish found
      ∙ index_keys-Keeps consul c (λ q. q.name ≡ name) (kept name) (package_keys catalog name) _
          found w w1 refl a

  index_packages-names :
      (catalog : Catalog) (ns : List String) (ps : List Package) (w w' : W)
      → index_packages consul c catalog ns w ≡ (ok ps, w')
      → map (λ p. p.name) ps ≡ ns
  unfolding index_packages
  index_packages-names catalog [] ps w w' h = rw (← ok-injective (ap (λ z. z.0) h)) refl
  index_packages-names catalog (n ∷ ns) ps w w' h =
      let (p, w1, a, h1) = >>=-eq-ok _ (index_package consul c catalog n) w h in
      let (rest, w2, b, e) = >>=-eq-ok _ (index_packages consul c catalog ns) w1 h1 in
      rw
        (
          ← ok-injective (ap (λ z. z.0) e),
          name-index_package catalog n p w w1 a,
          index_packages-names catalog ns rest w1 w2 b,
        )
        refl

  -- The packages that `packagesIndex` returns have the names of the catalog and no others, in ascending
  -- order of the names.
  pub packages_index-names :
      (catalog : Catalog) (ps : List Package) (w w' : W)
      → packages_index consul c catalog w ≡ (ok ps, w')
      → (map (λ p. p.name) ps ≡ sort less (keys catalog))
        × IsSorted less (map (λ (p : Package). p.name) ps)
        × ((name : String) → In name (map (λ (p : Package). p.name) ps) ↔ In name (keys catalog))
  unfolding packages_index names
  packages_index-names catalog ps w w' h =
      let e = index_packages-names catalog (sort less (keys catalog)) ps w w' h in
      (
        e,
        subst (λ l. IsSorted less l) (sym e) (sort-IsSorted less less-IsOrder (keys catalog)),
        λ name.
            subst (λ l. In name l ↔ In name (keys catalog)) (sym e)
              (In-sort less name (keys catalog)),
      )
