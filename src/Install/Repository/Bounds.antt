-- ===== src/Install/Repository/Bounds.antt =====
-- The indexes that are read from the keys of Consul are 64-bit numbers, whatever the keys are.
use mathlib.Core.Path.{subst}
use mantl_api.Prelude.{◌≡◌, refl, ap, List, [], ◌∷◌, inl, inr}
use mantl_api.Prelude.Lists.{In, All}
use mantl_api.Prelude.Int.{ℤ, IsInt}
use mantl_api.Prelude.Int.Digits.{atoi-IsInt}
use mantl_api.Prelude.Outcome.{ok, ok-injective}
use mantl_api.Prelude.Exec.{>>=-eq-ok, attempt-eq-ok}
use mantl_api.Consul.{Consul}
use mantl_api.Install.Repository.{
  Repository, last_part, repository_indexes, repository_name, named, get_repositories,
}
use mantl_api.Install.Repository.Order.{repository_indexes-IsSorted}

module _ {W : Type 0} (consul : Consul W) where
  In-All : (P : ℤ → Type 0) (is : List ℤ) → ((i : ℤ) → In i is → P i) → All P is
  In-All P [] h = tt
  In-All P (i ∷ is) h = (h i (inl refl), In-All P is (λ j m. h j (inr m)))

  repository_indexes-IsInt :
      (w w' : W) (idxs : List ℤ) → repository_indexes consul w ≡ (ok idxs, w') → All IsInt idxs
  repository_indexes-IsInt w w' idxs h =
      let (sorted, (keys, k, i)) = repository_indexes-IsSorted consul w w' idxs h in
      In-All IsInt idxs (λ j m. let (key, n, e) = (i j).0 m in atoi-IsInt (last_part key) j e)

  abbrev InRange : List Repository → Type 0
  InRange rs = All (λ (r : Repository). IsInt r.index) rs

  named-IsInt :
      (idxs : List ℤ) (w w' : W) (rs : List Repository)
      → All IsInt idxs
      → named consul idxs w ≡ (ok rs, w')
      → InRange rs
  unfolding named
  named-IsInt [] w w' rs s h = subst (λ l. InRange l) (ok-injective (ap (λ z. z.0) h)) tt
  named-IsInt (idx ∷ idxs) w w' rs s h =
      let (w1, p) = attempt-eq-ok _ _ (repository_name consul idx) w h in
      elim p [
        | inr (e, q) ↦ named-IsInt idxs w1 w' rs s.1 q
        | inl (name, q) ↦
            let (rest, w2, r, t) = >>=-eq-ok _ (named consul idxs) w1 q in
            subst (λ l. InRange l) (ok-injective (ap (λ z. z.0) t))
              (s.0, named-IsInt idxs w1 w2 rest s.1 r)
      ]

  -- Whatever keys Consul lists, the index of every repository that `getRepositories` returns is a
  -- 64-bit integer.
  pub get_repositories-IsInt :
      (w w' : W) (rs : List Repository)
      → get_repositories consul w ≡ (ok rs, w')
      → All (λ (r : Repository). IsInt r.index) rs
  unfolding get_repositories
  get_repositories-IsInt w w' rs h =
      let (idxs, w1, p, q) = >>=-eq-ok _ (repository_indexes consul) w h in
      named-IsInt idxs w1 w' rs (repository_indexes-IsInt w w1 idxs p) q
