-- ===== src/Install/Catalog/Held.antt =====
-- Which keys the catalog holds, and in which order the keys of a package are listed.
use mathlib.Core.Option.{get_or}
use mathlib.Core.Path.{subst}
use mantl_api.Prelude.{
  String, ◌≡◌, refl, sym, ap, ◌∙◌, ◌↔◌, ◌==◌, eq_iff, ◌&&◌, Option, none, some, List, [], ◌∷◌, ◌++◌,
  inl, inr, ◌⊎◌, Bool-cases, if◌then◌else◌,
}
use mantl_api.Prelude.Dict.{get, keys, get-put, In-keys, get-In-keys}
use mantl_api.Prelude.Lists.{In}
use mantl_api.Prelude.Sort.{sort, In-sort}
use mantl_api.Prelude.Text.{less, split, through_last}
use mantl_api.Prelude.Outcome.{ok, ok-injective}
use mantl_api.Prelude.Exec.{>>=-eq-ok}
use mantl_api.Consul.{Consul}
use mantl_api.Install.Catalog.{
  Versions, Repositories, Catalog, package_parts, keep_version, add, add_key, add_keys,
  new_package_catalog, keys_of_versions, keys_of_repositories, package_keys,
}

abbrev pub or_else : Option String → Option String → Option String
or_else none y = y
or_else (some x) y = some x

or_else-none : (x : Option String) → or_else x none ≡ x
or_else-none none = refl
or_else-none (some x) = refl

or_else_assoc : (x y z : Option String) → or_else (or_else x y) z ≡ or_else x (or_else y z)
or_else_assoc none y z = refl
or_else_assoc (some x) y z = refl

-- `c.catalog[name][repo][version]`
abbrev pub held : String → String → String → Catalog → Option String
held name repo version c = get version (get_or (get repo (get_or (get name c) [])) [])

-- the directory of a key that names the repository, package and version given
abbrev pub directory :
    Option (String × String × String) → String → String → String → String → Option String
directory none key name repo version = none
directory (some (r, n, v)) key name repo version =
    if n == name && (r == repo && v == version) then some key else none

get-keep_version :
    (o : Option String) (version v key : String) (m : Versions)
    → get version m ≡ o
    → get v (keep_version o version key m)
      ≡ or_else (get v m) (if version == v then some key else none)
unfolding keep_version
get-keep_version none version v key m h = elim (Bool-cases (version == v)) [
  | inl e ↦ rw (get-put, e, ← (eq_iff version v).0 e, h) refl
  | inr e ↦ rw (get-put, e) (sym (or_else-none (get v m)))
]
get-keep_version (some old) version v key m h = elim (Bool-cases (version == v)) [
  | inl e ↦ rw (e, ← (eq_iff version v).0 e, h) refl
  | inr e ↦ rw e (sym (or_else-none (get v m)))
]

held-add :
    (parts : Option (String × String × String)) (key name repo version : String) (c : Catalog)
    → held name repo version (add parts key c)
      ≡ or_else (held name repo version c) (directory parts key name repo version)
unfolding add
held-add none key name repo version c = sym (or_else-none (held name repo version c))
held-add (some (r, n, v)) key name repo version c = elim (Bool-cases (n == name)) [
  | inr e ↦ rw (get-put, e) (sym (or_else-none (held name repo version c)))
  | inl e ↦ elim (Bool-cases (r == repo)) [
    | inr d ↦
        rw (get-put, e, get-put, d, ← (eq_iff n name).0 e)
          (sym (or_else-none (held n repo version c)))
    | inl d ↦
        rw (get-put, e, get-put, d, ← (eq_iff n name).0 e, ← (eq_iff r repo).0 d)
          (get-keep_version (get v (get_or (get r (get_or (get n c) [])) [])) v version key
            (get_or (get r (get_or (get n c) [])) []) refl)
  ]
]

-- the directory of the first key that names the repository, package and version
abbrev pub first_directory : List String → String → String → String → Option String
first_directory [] name repo version = none
first_directory (key ∷ more) name repo version =
    or_else (directory (package_parts (split key b'/')) (through_last key b'/') name repo version)
      (first_directory more name repo version)

pub add_keys-held :
    (ks : List String) (name repo version : String) (c : Catalog)
    → held name repo version (add_keys ks c)
      ≡ or_else (held name repo version c) (first_directory ks name repo version)
unfolding add_keys add_key
add_keys-held [] name repo version c = sym (or_else-none (held name repo version c))
add_keys-held (key ∷ more) name repo version c =
    add_keys-held more name repo version (add_key key c)
    ∙ ap (λ o. or_else o (first_directory more name repo version))
        (held-add (package_parts (split key b'/')) (through_last key b'/') name repo version c)
    ∙ or_else_assoc (held name repo version c) _ (first_directory more name repo version)

-- A catalog that is made of Consul's keys holds, for a package, a repository and a version, the
-- directory of the first key in the order of texts that names the three, and nothing if none does.
pub new_package_catalog-held :
    {W : Type 0} (consul : Consul W) (root name repo version : String) (w w' : W) (c : Catalog)
    → new_package_catalog consul root w ≡ (ok c, w')
    → (ks : List String) × (consul.keys root "" w ≡ (ok ks, w'))
      × (held name repo version c ≡ first_directory (sort less ks) name repo version)
unfolding new_package_catalog get
new_package_catalog-held consul root name repo version w w' c h =
    let (ks, w1, p, q) = >>=-eq-ok _ (consul.keys root "") w h in
    (
      ks,
      subst (λ u. consul.keys root "" w ≡ (ok ks, u)) (ap (λ z. z.1) q) p,
      subst (λ d. held name repo version d ≡ first_directory (sort less ks) name repo version)
          (ok-injective (ap (λ z. z.0) q)) (add_keys-held (sort less ks) name repo version []),
    )

In-append : (a : String) (xs ys : List String) → In a (xs ++ ys) ↔ (In a xs ⊎ In a ys)
In-append a [] ys = (λ h. inr h, λ h. elim h [ inl f ↦ absurd f | inr m ↦ m ])
In-append a (x ∷ xs) ys = (
  λ h. elim h [
    | inl p ↦ inl (inl p)
    | inr m ↦ elim ((In-append a xs ys).0 m) [ inl l ↦ inl (inr l) | inr r ↦ inr r ]
  ],
  λ h. elim h [
    | inl l ↦ elim l [ inl p ↦ inl p | inr m ↦ inr ((In-append a xs ys).1 (inl m)) ]
    | inr r ↦ inr ((In-append a xs ys).1 (inr r))
  ],
)

keys_of_versions-In :
    (k : String) (vs : List String) (m : Versions)
    → In k (keys_of_versions vs m) ↔ ((v : String) × In v vs × (k ≡ get_or (get v m) ""))
unfolding keys_of_versions
keys_of_versions-In k [] m = (λ h. absurd h, λ (v, i, e). absurd i)
keys_of_versions-In k (u ∷ vs) m = (
  λ h. elim h [
    | inl p ↦ (u, inl refl, p)
    | inr r ↦ let (v, i, e) = (keys_of_versions-In k vs m).0 r in (v, inr i, e)
  ],
  λ (v, i, e). elim i [
    | inl p ↦ inl (e ∙ ap (λ x. get_or (get x m) "") p)
    | inr r ↦ inr ((keys_of_versions-In k vs m).1 (v, r, e))
  ],
)

keys_of_repositories-In :
    (k : String) (rs : List String) (m : Repositories)
    → In k (keys_of_repositories rs m)
      ↔ ((r : String) × In r rs × ((v : String) × (get v (get_or (get r m) []) ≡ some k)))
unfolding keys_of_repositories
keys_of_repositories-In k [] m = (λ h. absurd h, λ (r, i, e). absurd i)
keys_of_repositories-In k (s ∷ rs) m =
    let vs = get_or (get s m) [] in
    (
      λ h.
          elim ((In-append k (keys_of_versions (sort less (keys vs)) vs)
              (keys_of_repositories rs m)).0
            h) [
              | inl l ↦
                  let (v, i, e) = (keys_of_versions-In k (sort less (keys vs)) vs).0 l in
                  let (x, q) = get-In-keys v vs ((In-sort less v (keys vs)).0 i) in
                  (s, inl refl, (v, q ∙ ap some (sym (rw q at e))))
              | inr t ↦ let (r, i, e) = (keys_of_repositories-In k rs m).0 t in (r, inr i, e)
            ],
      λ (r, i, (v, e)).
          (In-append k (keys_of_versions (sort less (keys vs)) vs) (keys_of_repositories rs m)).1
            (elim i [
              | inl p ↦
                  let e' : get v vs ≡ some k =
                    subst (λ x. get v (get_or (get x m) []) ≡ some k) p e in
                  inl (
                    (keys_of_versions-In k (sort less (keys vs)) vs).1
                      (v, (In-sort less v (keys vs)).1 (In-keys v k vs e'), rw e' refl))
              | inr t ↦ inr ((keys_of_repositories-In k rs m).1 (r, t, (v, e)))
            ]),
    )

get-nil : (v k : String) → get v [] ≡ some k → ⊥
unfolding get
get-nil v k h = cc

repository_there :
    (r v k : String) (m : Repositories) → get v (get_or (get r m) []) ≡ some k → In r (keys m)
repository_there r v k m h = go (get r m) refl h
  where
    go : (o : Option Versions) → get r m ≡ o → get v (get_or o []) ≡ some k → In r (keys m)
    go none e q = absurd (get-nil v k q)
    go (some vs) e q = In-keys r vs m e

-- The keys that the catalog lists for a package are those that it holds for the package under some
-- repository and version, all of them and no others.
pub package_keys-In :
    (c : Catalog) (name k : String)
    → In k (package_keys c name) ↔ ((r : String) × (v : String) × (held name r v c ≡ some k))
unfolding package_keys
package_keys-In c name k =
    let repos = get_or (get name c) [] in
    (
      λ h.
          let (r, i, (v, e)) = (keys_of_repositories-In k (sort less (keys repos)) repos).0 h in
          (r, v, e),
      λ (r, v, e).
          (keys_of_repositories-In k (sort less (keys repos)) repos).1
            (r, (In-sort less r (keys repos)).1 (repository_there r v k repos e), (v, e)),
    )
