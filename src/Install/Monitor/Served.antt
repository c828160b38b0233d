-- ===== src/Install/Monitor/Served.antt =====
-- Which keys a tick of `Watch` takes out of Consul.
use mantl_api.Prelude.{
  String, ◌≡◌, ap, sym, ◌∙◌, ◌==◌, Bool, true, false, Option, none, some, List, [], ◌⊎◌, ◌∷◌, inl,
  inr, Bool-cases, Option-cases, if◌then◌else◌, eq_refl, eq_iff,
}
use mantl_api.Prelude.Dict.{Map, keys}
use mantl_api.Prelude.Lists.{In}
use mantl_api.Prelude.Text.{has_prefix, trim_prefix}
use mantl_api.Prelude.Outcome.{Result, ok, err, panic}
use mantl_api.Prelude.Exec.{>>=-eq-ok}
use mantl_api.Prelude.Exec.Keeps.{Keeps, lift-Keeps, attempt-Keeps}
use mantl_api.Consul.{Consul}
use mantl_api.Install.Package.Request.{new_package_request}
use mantl_api.Install.Repository.{apps_root}
use mantl_api.Install.Operations.{Env, Install}
use mantl_api.Install.Operations.Confined.{Confined, install_package-Keeps}
use mantl_api.Install.Monitor.{
  after_delete, install_value, install_package_from_kv_pair, install_pairs, watch_tick,
}

-- A store that `look` reads: a key is gone after a deletion that returns no error; one that returns an
-- error has deleted the key or changed nothing; a prefix lists the keys that start with it.
pub record Keyed {W : Type 0} (look : W → String → Option String) (consul : Consul W) : Type 0 where
  pub deletes :
      (k j : String) (w w' : W)
      → consul.delete k w ≡ (ok tt, w')
      → look w' j ≡ (if k == j then none else look w j)
  pub fails :
      (k j e : String) (w w' : W)
      → consul.delete k w ≡ (err e, w')
      → (look w' j ≡ look w j) ⊎ ((k ≡ j) × (look w' j ≡ none))
  pub keeps_list : (prefix : String) → Keeps look (consul.list prefix)
  pub lists :
      (prefix k v : String) (pairs : Map String) (w w' : W)
      → consul.list prefix w ≡ (ok pairs, w')
      → has_prefix k prefix ≡ true
      → look w k ≡ some v
      → In k (keys pairs)
  pub lists_only :
      (prefix k : String) (pairs : Map String) (w w' : W)
      → consul.list prefix w ≡ (ok pairs, w')
      → In k (keys pairs)
      → has_prefix k prefix ≡ true

-- A key under `mantl-install/apps/`, other than that of the directory.
pub record IsRequest (k : String) : Type 0 where
  pub below : has_prefix k apps_root ≡ true
  pub named : (trim_prefix k apps_root == "") ≡ false

later :
    (j k : String) (rest : List String) (b : Bool) → In j rest → In j (if b then k ∷ rest else rest)
later j k rest true f = inr f
later j k rest false f = f

is_error : {A : Type 0} → Result A → Bool
is_error (err e) = true
is_error _ = false

module _ {W N : Type 0} (env : Env W N) (i : Install N) where
  -- the keys whose deletion returns an error, when the loop runs over the pairs
  unfoldable pub undeleted : List (String × String) → W → List String
  unfolding is_error
  undeleted [] w = []
  undeleted ((k, v) ∷ more) w =
      let skipped = undeleted more w in
      let rest = undeleted more (install_package_from_kv_pair env i (k, v) w).1 in
      if trim_prefix k apps_root == ""
      then skipped
      else if is_error (env.consul.delete k (install_value env i v w).1).0
      then k ∷ rest
      else rest

module _ {W N : Type 0} (look : W → String → Option String) (env : Env W N)
    (keyed : Keyed look env.consul) (h : Confined look env) (i : Install N) where
  install_value-Keeps : (value : String) → Keeps look (install_value env i value)
  unfolding install_value
  install_value-Keeps value =
      attempt-Keeps look (lift-Keeps look (new_package_request env.codec value))
        (λ req.
          attempt-Keeps look (install_package-Keeps look env h i req) (λ _. lift-Keeps look (ok tt))
            (λ e. lift-Keeps look (ok tt)))
        (λ e. lift-Keeps look (ok tt))

  settled :
      (r d : Result (Unit {0})) (w1 w' : W)
      → Path (Result (Unit {0}) × W) (after_delete env r d, w1) (ok tt, w')
      → (Path (Result (Unit {0}) × W) (d, w1) (ok tt, w'))
        ⊎ ((e : String) × (Path (Result (Unit {0}) × W) (d, w1) (err e, w')))
  unfolding after_delete
  settled panic d w1 w' h = cc (ap (λ z. z.0) h)
  settled (ok a) panic w1 w' h = cc (ap (λ z. z.0) h)
  settled (err x) panic w1 w' h = cc (ap (λ z. z.0) h)
  settled (ok a) (ok b) w1 w' h = inl (ap (λ z. (ok tt, z.1)) h)
  settled (err x) (ok b) w1 w' h = inl (ap (λ z. (ok tt, z.1)) h)
  settled (ok a) (err e) w1 w' h = inr (e, ap (λ z. (err e, z.1)) h)
  settled (err x) (err e) w1 w' h = inr (e, ap (λ z. (err e, z.1)) h)

  -- one pair that is handled with no panic: what its deletion did
  handled-eq-ok :
      (k v : String) (w w' : W)
      → install_package_from_kv_pair env i (k, v) w ≡ (ok tt, w')
      → (env.consul.delete k (install_value env i v w).1 ≡ (ok tt, w'))
        ⊎ ((e : String) × (env.consul.delete k (install_value env i v w).1 ≡ (err e, w')))
  unfolding install_package_from_kv_pair
  handled-eq-ok k v w w' h =
      settled (install_value env i v w).0 (env.consul.delete k (install_value env i v w).1).0
        (env.consul.delete k (install_value env i v w).1).1 w' h

  value-look : (v j : String) (w : W) → look (install_value env i v w).1 j ≡ look w j
  value-look v j w = ap (λ f. f j) ((install_value-Keeps v).same w)

  -- a pair takes no other key with it, and brings none back
  handled-look :
      (k v j : String) (w w' : W)
      → install_package_from_kv_pair env i (k, v) w ≡ (ok tt, w')
      → (look w' j ≡ look w j) ⊎ ((k ≡ j) × (look w' j ≡ none))
  handled-look k v j w w' h = elim (handled-eq-ok k v w w' h) [
    | inl d ↦
        let e = keyed.deletes k j _ w' d in
        elim (Bool-cases (k == j)) [
          | inl p ↦ inr ((eq_iff k j).0 p, rw p at e)
          | inr p ↦ inl ((rw p at e) ∙ value-look v j w)
        ]
    | inr (x, d) ↦ elim (keyed.fails k j x _ w' d) [
      | inl e ↦ inl (e ∙ value-look v j w)
      | inr e ↦ inr e
    ]
  ]

  install_pairs-absent :
      (pairs : Map String) (j : String) (w w' : W)
      → install_pairs env i pairs w ≡ (ok tt, w')
      → look w j ≡ none
      → look w' j ≡ none
  unfolding install_pairs
  install_pairs-absent [] j w w' e a = ap (λ (p : Result (Unit {0}) × W). look p.1 j) (sym e) ∙ a
  install_pairs-absent ((k, v) ∷ more) j w w' e a =
      elim (Bool-cases (trim_prefix k apps_root == "")) [
        | inl t ↦ install_pairs-absent more j w w' (rw t at e) a
        | inr t ↦
            let (u, w1, p, q) =
              >>=-eq-ok (λ _. install_pairs env i more) (install_package_from_kv_pair env i (k, v))
                w (rw t at e) in
            install_pairs-absent more j w1 w' q
              (elim (handled-look k v j w w1 p) [ inl s ↦ s ∙ a | inr s ↦ s.1 ])
      ]

  install_pairs-other :
      (pairs : Map String) (j : String) (w w' : W)
      → install_pairs env i pairs w ≡ (ok tt, w')
      → (In j (keys pairs) → ⊥)
      → look w' j ≡ look w j
  unfolding install_pairs keys
  install_pairs-other [] j w w' e n = ap (λ (p : Result (Unit {0}) × W). look p.1 j) (sym e)
  install_pairs-other ((k, v) ∷ more) j w w' e n =
      elim (Bool-cases (trim_prefix k apps_root == "")) [
        | inl t ↦ install_pairs-other more j w w' (rw t at e) (λ m. n (inr m))
        | inr t ↦
            let (u, w1, p, q) =
              >>=-eq-ok (λ _. install_pairs env i more) (install_package_from_kv_pair env i (k, v))
                w (rw t at e) in
            install_pairs-other more j w1 w' q (λ m. n (inr m))
            ∙ elim (handled-look k v j w w1 p) [ inl s ↦ s | inr s ↦ absurd (n (inl (sym s.0))) ]
      ]

  install_pairs-gone :
      (pairs : Map String) (j : String) (w w' : W)
      → install_pairs env i pairs w ≡ (ok tt, w')
      → IsRequest j
      → In j (keys pairs)
      → (look w' j ≡ none) ⊎ In j (undeleted env i pairs w)
  unfolding install_pairs keys undeleted
  install_pairs-gone [] j w w' e r m = absurd m
  install_pairs-gone ((k, v) ∷ more) j w w' e r m =
      elim (Bool-cases (trim_prefix k apps_root == "")) [
        | inl t ↦ elim m [
          | inl p ↦ cc (ap (λ x. trim_prefix x apps_root == "") p, t, r.named)
          | inr n ↦ rw t (install_pairs-gone more j w w' (rw t at e) r n)
        ]
        | inr t ↦
            let (u, w1, p, q) =
              >>=-eq-ok (λ _. install_pairs env i more) (install_package_from_kv_pair env i (k, v))
                w (rw t at e) in
            elim m [
              | inr n ↦ elim (install_pairs-gone more j w1 w' q r n) [
                | inl a ↦ inl a
                | inr f ↦ inr (
                    rw (t, p)
                      (later j k _ (is_error (env.consul.delete k (install_value env i v w).1).0)
                        f))
              ]
              | inl same ↦ elim (handled-eq-ok k v w w1 p) [
                | inl d ↦ inl (
                    install_pairs-absent more j w1 w' q
                      (rw (← same, eq_refl j) at (keyed.deletes k j _ w1 d)))
                | inr (x, d) ↦ inr (rw (t, d, is_error) (inl same))
              ]
            ]
      ]

  -- A tick that cannot read its pairs changes nothing.
  pub watch_tick-missed :
      (e : String) (w w1 w' : W)
      → env.consul.list apps_root w ≡ (err e, w1)
      → watch_tick env i w ≡ (ok tt, w')
      → look w' ≡ look w
  unfolding watch_tick
  watch_tick-missed e w w1 w' l t =
      ap (λ (z : Result (Unit {0}) × W). look z.1) (sym (rw l at t))
      ∙ ap (λ (z : Result (Map String) × W). look z.1) (sym l)
      ∙ (keyed.keeps_list apps_root).same w

  -- A tick brings no key back.
  pub watch_tick-absent :
      (pairs : Map String) (j : String) (w w1 w' : W)
      → env.consul.list apps_root w ≡ (ok pairs, w1)
      → watch_tick env i w ≡ (ok tt, w')
      → look w j ≡ none
      → look w' j ≡ none
  unfolding watch_tick
  watch_tick-absent pairs j w w1 w' l e a = install_pairs-absent pairs j w1 w' (rw l at e) (
      ap (λ (z : Result (Map String) × W). look z.1 j) (sym l)
      ∙ ap (λ f. f j) ((keyed.keeps_list apps_root).same w)
      ∙ a)

  pub watch_tick-serves :
      (pairs : Map String) (j : String) (w w1 w' : W)
      → env.consul.list apps_root w ≡ (ok pairs, w1)
      → watch_tick env i w ≡ (ok tt, w')
      → (IsRequest j → (look w' j ≡ none) ⊎ In j (undeleted env i pairs w1))
        × (has_prefix j apps_root ≡ false → look w' j ≡ look w j)
  unfolding watch_tick
  watch_tick-serves pairs j w w1 w' l e = (
    λ r. elim (Option-cases (look w j)) [
      | inl n ↦ inl (install_pairs-absent pairs j w1 w' ran (listed ∙ n))
      | inr (v, p) ↦
          install_pairs-gone pairs j w1 w' ran r (keyed.lists apps_root j v pairs w w1 l r.below p)
    ],
    λ n.
        install_pairs-other pairs j w1 w' ran
          (λ m. cc (keyed.lists_only apps_root j pairs w w1 l m, n))
        ∙ listed,
  )
    where
      ran : install_pairs env i pairs w1 ≡ (ok tt, w')
      ran = rw l at e

      listed : look w1 j ≡ look w j
      listed =
          ap (λ (z : Result (Map String) × W). look z.1 j) (sym l)
          ∙ ap (λ f. f j) ((keyed.keeps_list apps_root).same w)
