-- ===== src/Install/Catalog/Index/Keyed.antt =====
-- How the versions of an indexed package are kept: each under its own text.
use mathlib.Core.Path.{subst}
use mantl_api.Prelude.{
  String, ◌≡◌, refl, sym, ap, ◌∙◌, ◌==◌, Bool, true, false, Option, none, some, List, [], ◌∷◌, inl,
  inr, Bool-cases, eq_iff, if◌then◌else◌,
}
use mantl_api.Prelude.Dict.{Map, get, put, Unique, put-Unique, get-put}
use mantl_api.Prelude.Lists.{In}
use mantl_api.Prelude.Outcome.{ok, ok-injective}
use mantl_api.Prelude.Exec.{>>=-eq-ok}
use mantl_api.Json.{Codec}
use mantl_api.Consul.{Consul}
use mantl_api.Install.Package.{PackageVersion, Package, new_package}
use mantl_api.Install.Catalog.{Catalog, names, package_keys}
use mantl_api.Install.Catalog.Index.{
  Found, mark, mark_all, finish, index_keys, index_package, index_packages, packages_index,
}
use mantl_api.Install.Catalog.Index.Finish.{on_some, support, get-mark, versions-settle}
use mantl_api.Install.Catalog.Index.Steps.{IsKept, index_keys-Keeps}

-- No version is there twice, and each is kept under its own text.
abbrev pub IsKeyed : Map PackageVersion → Type 0
IsKeyed m = Unique m × ((k : String) (v : PackageVersion) → get k m ≡ some v → v.version ≡ k)

some-injective : {u v : PackageVersion} → some u ≡ some v → u ≡ v
some-injective h = cc

get_put-version :
    (k version : String) (w v : PackageVersion) (m : Map PackageVersion)
    → w.version ≡ version
    → ((u : PackageVersion) → get k m ≡ some u → u.version ≡ k)
    → get k (put version w m) ≡ some v
    → v.version ≡ k
get_put-version k version w v m named old h =
    let e : (if version == k then some w else get k m) ≡ some v = sym (get-put version k w m) ∙ h in
    elim (Bool-cases (version == k)) [
      | inl same ↦
          let q : some w ≡ some v = rw same at e in
          ap (λ (u : PackageVersion). u.version) (sym (some-injective q))
          ∙ named
          ∙ (eq_iff version k).0 same
      | inr other ↦ old v (rw other at e)
    ]

put-IsKeyed :
    (version index : String) (m : Map PackageVersion)
    → IsKeyed m
    → IsKeyed (put version (record { version = version; index = index; supported = false }) m)
put-IsKeyed version index m (u, e) =
    (put-Unique version _ m u, λ k v h. get_put-version k version _ v m refl (e k) h)

mark-Unique : (index : String) (m : Map PackageVersion) → Unique m → Unique (mark index m)
unfolding mark
mark-Unique index [] u = tt
mark-Unique index ((k, v) ∷ m) u =
    (get-mark index k m ∙ ap (on_some _) u.0, mark-Unique index m u.1)

support-version : (b : Bool) (v : PackageVersion) → (support b v).version ≡ v.version
support-version true v = refl
support-version false v = refl

on_some-version :
    (test : PackageVersion → Bool) (k : String) (o : Option PackageVersion) (v : PackageVersion)
    → ((u : PackageVersion) → o ≡ some u → u.version ≡ k)
    → on_some (λ u. support (test u) u) o ≡ some v
    → v.version ≡ k
on_some-version test k none v old h = cc
on_some-version test k (some u) v old h =
    ap (λ (x : PackageVersion). x.version) (sym (some-injective h))
    ∙ support-version (test u) u
    ∙ old u refl

mark-IsKeyed : (index : String) (m : Map PackageVersion) → IsKeyed m → IsKeyed (mark index m)
mark-IsKeyed index m (u, e) = (
  mark-Unique index m u,
  λ k v h.
      on_some-version (λ u. index == u.index) k (get k m) v (e k) (sym (get-mark index k m) ∙ h),
)

mark_all-IsKeyed :
    (indexes : List String) (p : Package)
    → IsKeyed p.versions
    → IsKeyed (mark_all indexes p).versions
unfolding mark_all
mark_all-IsKeyed [] p h = h
mark_all-IsKeyed (i ∷ more) p h = mark_all-IsKeyed more _ (mark-IsKeyed i p.versions h)

finish-IsKeyed : (found : Found) → IsKeyed found.pkg.versions → IsKeyed (finish found).versions
unfolding finish
finish-IsKeyed found h =
    rw versions-settle (
      mark_all-IsKeyed found.supported_versions (record found.pkg { supported = found.supported })
        h)

kept : IsKept (λ p. IsKeyed p.versions)
kept = record {
  described = λ p s h. h;
  framed = λ p b h. h;
  tagged = λ p ts h. h;
  versioned = λ p version index h. put-IsKeyed version index p.versions h;
}

no_versions : IsKeyed []
unfolding get
no_versions = (tt, λ k v h. cc)

module _ {W N : Type 0} (consul : Consul W) (c : Codec N) where
  index_package-IsKeyed :
      (catalog : Catalog) (name : String) (p : Package) (w w' : W)
      → index_package consul c catalog name w ≡ (ok p, w')
      → IsKeyed p.versions
  unfolding index_package
  index_package-IsKeyed catalog name p w w' h =
      let (found, w1, a, e) =
        >>=-eq-ok _
          (index_keys consul c (package_keys catalog name)
            (record { pkg = new_package name; supported = false; supported_versions = [] }))
          w h in
      subst (λ (q : Package). IsKeyed q.versions) (ok-injective (ap (λ z. z.0) e))
        (finish-IsKeyed found (
          index_keys-Keeps consul c (λ q. IsKeyed q.versions) kept (package_keys catalog name) _
            found w w1 no_versions a))

  index_packages-IsKeyed :
      (catalog : Catalog) (ns : List String) (ps : List Package) (p : Package) (w w' : W)
      → index_packages consul c catalog ns w ≡ (ok ps, w')
      → In p ps
      → IsKeyed p.versions
  unfolding index_packages
  index_packages-IsKeyed catalog [] ps p w w' h m =
      absurd (subst (In p) (sym (ok-injective (ap (λ z. z.0) h))) m)
  index_packages-IsKeyed catalog (n ∷ ns) ps p w w' h m =
      let (q, w1, a, h1) = >>=-eq-ok _ (index_package consul c catalog n) w h in
      let (rest, w2, b, e) = >>=-eq-ok _ (index_packages consul c catalog ns) w1 h1 in
      elim (subst (In p) (sym (ok-injective (ap (λ z. z.0) e))) m) [
        | inl same ↦
            subst (λ (x : Package). IsKeyed x.versions) (sym same)
              (index_package-IsKeyed catalog n q w w1 a)
        | inr more ↦ index_packages-IsKeyed catalog ns rest p w1 w2 b more
      ]

  -- In every package that `packagesIndex` returns, no version is there twice, and each is kept
  -- under its own text.
  pub packages_index-IsKeyed :
      (catalog : Catalog) (ps : List Package) (p : Package) (w w' : W)
      → packages_index consul c catalog w ≡ (ok ps, w')
      → In p ps
      → IsKeyed p.versions
  unfolding packages_index
  packages_index-IsKeyed catalog ps p w w' h m =
      index_packages-IsKeyed catalog (names catalog) ps p w w' h m
