-- ===== src/Install/Monitor/Laws.antt =====
-- A request that is left in Consul is taken out of it whatever becomes of its installation.
use mathlib.Core.Path.{fun_ext}
use mantl_api.Prelude.{String, ◌≡◌, refl, ◌≢◌, ap, ◌==◌, List, [], ◌∷◌, inl, inr, Bool-cases, not}
use mantl_api.Prelude.Lists.{select}
use mantl_api.Prelude.Text.{trim_prefix}
use mantl_api.Prelude.Outcome.{Result, ok, err, panic}
use mantl_api.Prelude.Exec.{Exec, ◌>>◌}
use mantl_api.Install.Package.Request.{new_package_request}
use mantl_api.Install.Repository.{apps_root}
use mantl_api.Install.Operations.{Env, Install}
use mantl_api.Install.Monitor.{
  install_value, after_delete, install_package_from_kv_pair, install_pairs,
}

module _ {W N : Type 0} (env : Env W N) (i : Install N) where
  -- what a call did is that its key is gone after it
  abbrev pub Deleted : String → W → Type 0
  Deleted key w = (w' : W) × (w ≡ (env.consul.delete key w').1)

  after_delete-ne-err : (r d : Result (Unit {0})) (e : String) → after_delete env r d ≡ err e → ⊥
  unfolding after_delete
  after_delete-ne-err panic d e h = cc
  after_delete-ne-err (ok u) panic e h = cc
  after_delete-ne-err (ok u) (ok v) e h = cc
  after_delete-ne-err (ok u) (err x) e h = cc
  after_delete-ne-err (err y) panic e h = cc
  after_delete-ne-err (err y) (ok v) e h = cc
  after_delete-ne-err (err y) (err x) e h = cc

  -- Handling the pair of a key ends with the deletion of the key in every case, after a request
  -- that cannot be parsed, a failed or a successful installation, and a panic, and it returns no
  -- error.
  pub install_package_from_kv_pair-deletes :
      (key value : String) (w : W)
      → Deleted key (install_package_from_kv_pair env i (key, value) w).1
        × ((e : String) → (install_package_from_kv_pair env i (key, value) w).0 ≢ err e)
  unfolding install_package_from_kv_pair
  install_package_from_kv_pair-deletes key value w =
      (((install_value env i value w).1, refl), λ e h. after_delete-ne-err _ _ e h)

  -- A request whose text is no JSON, or names no package, installs nothing: the key is deleted from
  -- the world as it was.
  install_package_from_kv_pair-err :
      (key value : String) (w : W) (e : String)
      → new_package_request env.codec value ≡ err e
      → (install_package_from_kv_pair env i (key, value) w).1 ≡ (env.consul.delete key w).1
  unfolding install_package_from_kv_pair install_value
  install_package_from_kv_pair-err key value w e h = rw h refl

  abbrev pub pairs_of : List (String × String) → List (String × String)
  pairs_of pairs = select (λ p. not (trim_prefix p.0 apps_root == "")) pairs

  -- The pair of the directory itself is passed over, and the loop over the pairs is that over the
  -- others, in order.
  install_pairs-select :
      (pairs : List (String × String)) (w : W)
      → install_pairs env i pairs w ≡ install_pairs env i (pairs_of pairs) w
  unfolding install_pairs select
  install_pairs-select [] w = refl
  install_pairs-select ((key, value) ∷ more) w =
      elim (Bool-cases (trim_prefix key apps_root == "")) [
        | inl t ↦ rw t (install_pairs-select more w)
        | inr t ↦ rw t (
            rw t (
              ap
                (λ (k : Exec W (Unit {0})).
                  (install_package_from_kv_pair env i (key, value) >> k) w)
                (fun_ext λ v. install_pairs-select more v)))
      ]
