-- ===== src/Install/Repository/Order.antt =====
-- The order of the repositories, on which it depends whose files of a package are used.
use mathlib.Core.Path.{subst}
use mantl_api.Prelude.{
  String, ◌≡◌, refl, sym, ◌∙◌, ap, ◌↔◌, false, Option, none, some, List, [], ◌∷◌, inl, inr, ◌⊎◌,
}
use mantl_api.Prelude.Lists.{In, All}
use mantl_api.Prelude.Sort.{IsSorted, In-sort, sort-IsSorted}
use mantl_api.Prelude.Int.{ℤ, int_less, int_less-IsOrder, atoi}
use mantl_api.Prelude.Outcome.{ok, ok-injective}
use mantl_api.Prelude.Exec.{>>=-eq-ok, attempt-eq-ok}
use mantl_api.Consul.{Consul}
use mantl_api.Install.Repository.{
  Repository, last_part, indexes_of, keep_index, repository_indexes, repository_name, named,
  get_repositories,
}

keep_index-In :
    (i : ℤ) (o : Option ℤ) (idxs : List ℤ) → In i (keep_index o idxs) ↔ ((o ≡ some i) ⊎ In i idxs)
unfolding keep_index
keep_index-In i none idxs = (λ h. inr h, λ h. elim h [ inl p ↦ cc | inr m ↦ m ])
keep_index-In i (some j) idxs = (
  λ h. elim h [ inl p ↦ inl (ap some (sym p)) | inr m ↦ inr m ],
  λ h. elim h [ inl p ↦ inl (cc) | inr m ↦ inr m ],
)

-- A number is among the indexes if some key ends in it.
abbrev pub Ends : ℤ → List String → Type 0
Ends i keys = (key : String) × In key keys × (atoi (last_part key) ≡ some i)

indexes_of-In : (i : ℤ) (keys : List String) → In i (indexes_of keys) ↔ Ends i keys
unfolding indexes_of
indexes_of-In i [] = (λ h. absurd h, λ (key, m, e). absurd m)
indexes_of-In i (key ∷ keys) = (
  λ h. elim ((keep_index-In i (atoi (last_part key)) (indexes_of keys)).0 h) [
    | inl p ↦ (key, inl refl, p)
    | inr m ↦ let (k, n, e) = (indexes_of-In i keys).0 m in (k, inr n, e)
  ],
  λ (k, n, e). (keep_index-In i (atoi (last_part key)) (indexes_of keys)).1 (elim n [
    | inl p ↦ inl (ap (λ x. atoi (last_part x)) (sym p) ∙ e)
    | inr m ↦ inr ((indexes_of-In i keys).1 (k, m, e))
  ]),
)

module _ {W : Type 0} (consul : Consul W) where
  -- the indexes of repositories, none of which is less than one before it
  abbrev pub Ordered : List Repository → Type 0
  Ordered rs = IsSorted (λ a b. int_less a.index b.index) rs

  -- `repositoryIndexes` returns the numbers in which the keys end, in ascending order as integers.
  pub repository_indexes-IsSorted :
      (w w' : W) (idxs : List ℤ)
      → repository_indexes consul w ≡ (ok idxs, w')
      → IsSorted int_less idxs
        × ((keys : List String) × (consul.keys "mantl-install/repository/" "/" w ≡ (ok keys, w'))
            × ((i : ℤ) → In i idxs ↔ Ends i keys))
  unfolding repository_indexes
  repository_indexes-IsSorted w w' idxs h =
      let (keys, w1, p, q) = >>=-eq-ok _ (consul.keys "mantl-install/repository/" "/") w h in
      let e = ok-injective (ap (λ z. z.0) q) in
      let e' = ap (λ z. z.1) q in
      (
        subst (λ l. IsSorted int_less l) e
            (sort-IsSorted int_less int_less-IsOrder (indexes_of keys)),
        (
          keys,
          rw (← e') p,
          λ i. rw (← e) (
            λ m. (indexes_of-In i keys).0 ((In-sort int_less i (indexes_of keys)).0 m),
            λ m. (In-sort int_less i (indexes_of keys)).1 ((indexes_of-In i keys).1 m),
          ),
        ),
      )

  Above : ℤ → List Repository → Type 0
  Above i rs = All (λ (r : Repository). int_less r.index i ≡ false) rs

  named-Above :
      (i : ℤ) (idxs : List ℤ) (w w' : W) (rs : List Repository)
      → All (λ j. int_less j i ≡ false) idxs
      → named consul idxs w ≡ (ok rs, w')
      → Above i rs
  unfolding named Above
  named-Above i [] w w' rs above h = subst (λ l. Above i l) (ok-injective (ap (λ z. z.0) h)) tt
  named-Above i (idx ∷ idxs) w w' rs above h =
      let (w1, p) = attempt-eq-ok _ _ (repository_name consul idx) w h in
      elim p [
        | inr (e, q) ↦ named-Above i idxs w1 w' rs above.1 q
        | inl (name, q) ↦
            let (rest, w2, r, t) = >>=-eq-ok _ (named consul idxs) w1 q in
            subst (λ l. Above i l) (ok-injective (ap (λ z. z.0) t))
              (above.0, named-Above i idxs w1 w2 rest above.1 r)
      ]

  named-Ordered :
      (idxs : List ℤ) (w w' : W) (rs : List Repository)
      → IsSorted int_less idxs
      → named consul idxs w ≡ (ok rs, w')
      → Ordered rs
  unfolding named Above
  named-Ordered [] w w' rs s h = subst (λ l. Ordered l) (ok-injective (ap (λ z. z.0) h)) tt
  named-Ordered (idx ∷ idxs) w w' rs s h =
      let (w1, p) = attempt-eq-ok _ _ (repository_name consul idx) w h in
      elim p [
        | inr (e, q) ↦ named-Ordered idxs w1 w' rs s.1 q
        | inl (name, q) ↦
            let (rest, w2, r, t) = >>=-eq-ok _ (named consul idxs) w1 q in
            subst (λ l. Ordered l) (ok-injective (ap (λ z. z.0) t))
              (named-Above idx idxs w1 w2 rest s.0 r, named-Ordered idxs w1 w2 rest s.1 r)
      ]

  -- `getRepositories` returns the repositories in ascending order of their indexes as integers, also
  -- when some of them are left out because their names could not be read.
  pub get_repositories-IsSorted :
      (w w' : W) (rs : List Repository) → get_repositories consul w ≡ (ok rs, w') → Ordered rs
  unfolding get_repositories
  get_repositories-IsSorted w w' rs h =
      let (idxs, w1, p, q) = >>=-eq-ok _ (repository_indexes consul) w h in
      named-Ordered idxs w1 w' rs (repository_indexes-IsSorted w w1 idxs p).0 q
