-- ===== src/Mesos/Laws.antt =====
-- Which framework is found by its name, and what a shutdown by name does.
use mathlib.Core.Path.{subst}
use mantl_api.Prelude.{
  String, ◌≡◌, refl, sym, ◌∙◌, ap, ◌≢◌, ◌==◌, eq_iff, eq_refl, true, false, Option, none, some,
  List, [], ◌∷◌, map, ◌⊎◌, arith, inl, inr, Bool-cases, if◌then◌else◌,
}
use mantl_api.Prelude.Lists.{In}
use mantl_api.Prelude.Dict.{Map, Unique, get, put, values, get-put, put-Unique}
use mantl_api.Prelude.Text.{equal_fold}
use mantl_api.Prelude.Outcome.{Result, ok, err, panic}
use mantl_api.Http.{Network}
use mantl_api.Mesos.{
  Mesos, Framework, State, StateDecoder, state, dereferenced, matching, find_frameworks, only,
  find_framework, shutdown, shutdown_framework_by_name,
}

module _ {N : Type 0} (name : String) (all : List (Framework N)) where
  -- what the map of the loop holds: frameworks of the list that have the name, by their ids
  abbrev Sound : Map (Framework N) → Type 0
  Sound m =
      (k : String) (v : Framework N)
      → get k m ≡ some v
      → (v.id ≡ k) × In v all × (equal_fold v.name name ≡ true)

  empty-Sound : Sound []
  unfolding get
  empty-Sound k v h = cc

  put-Sound :
      (fw : Framework N) (m : Map (Framework N))
      → In fw all
      → equal_fold fw.name name ≡ true
      → Sound m
      → Sound (put fw.id fw m)
  put-Sound fw m here named s k v h = elim (Bool-cases (fw.id == k)) [
    | inl e ↦
        let p : fw ≡ v = cc (rw (get-put, e) at h) in
        (
          ap (λ (u : Framework N). u.id) (sym p) ∙ (eq_iff fw.id k).0 e,
          subst (λ u. In u all) p here,
          subst (λ (u : Framework N). equal_fold u.name name ≡ true) p named,
        )
    | inr e ↦ s k v (rw (get-put, e) at h)
  ]

  matching-Sound :
      (fws : List (Framework N)) (m : Map (Framework N))
      → ((v : Framework N) → In v fws → In v all)
      → Sound m
      → Sound (matching name fws m)
  unfolding matching
  matching-Sound [] m sub s = s
  matching-Sound (fw ∷ fws) m sub s = elim (Bool-cases (equal_fold fw.name name)) [
    | inl e ↦ rw e (
        matching-Sound fws (put fw.id fw m) (λ v h. sub v (inr h))
          (put-Sound fw m (sub fw (inl refl)) e s))
    | inr e ↦ rw e (matching-Sound fws m (λ v h. sub v (inr h)) s)
  ]

module _ {N : Type 0} (name : String) where
  abbrev Has : String → Map (Framework N) → Type 0
  Has k m = (v : Framework N) × (get k m ≡ some v)

  put-Has :
      (k : String) (fw : Framework N) (m : Map (Framework N)) → Has k m → Has k (put fw.id fw m)
  put-Has k fw m (v, h) = elim (Bool-cases (fw.id == k)) [
    | inl e ↦ (fw, rw (get-put, e))
    | inr e ↦ (v, rw (get-put, e) h)
  ]

  matching-Has :
      (k : String) (fws : List (Framework N)) (m : Map (Framework N))
      → Has k m
      → Has k (matching name fws m)
  unfolding matching
  matching-Has k [] m h = h
  matching-Has k (fw ∷ fws) m h = elim (Bool-cases (equal_fold fw.name name)) [
    | inl e ↦ rw e (matching-Has k fws (put fw.id fw m) (put-Has k fw m h))
    | inr e ↦ rw e (matching-Has k fws m h)
  ]

  matching-Has_all :
      (g : Framework N) (fws : List (Framework N)) (m : Map (Framework N))
      → In g fws
      → equal_fold g.name name ≡ true
      → Has g.id (matching name fws m)
  unfolding matching
  matching-Has_all g [] m here named = absurd here
  matching-Has_all g (fw ∷ fws) m here named = elim here [
    | inl p ↦ rw (← p, named) (matching-Has g.id fws (put g.id g m) (g, rw (get-put, eq_refl)))
    | inr r ↦ matching-Has_all g fws (if equal_fold fw.name name then put fw.id fw m else m) r named
  ]

  matching-Unique :
      (fws : List (Framework N)) (m : Map (Framework N)) → Unique m → Unique (matching name fws m)
  unfolding matching
  matching-Unique [] m u = u
  matching-Unique (fw ∷ fws) m u = elim (Bool-cases (equal_fold fw.name name)) [
    | inl e ↦ rw e (matching-Unique fws (put fw.id fw m) (put-Unique fw.id fw m u))
    | inr e ↦ rw e (matching-Unique fws m u)
  ]

  -- A framework of the list that has the name.
  abbrev Named : List (Framework N) → Framework N → Type 0
  Named fws fw = In fw fws × (equal_fold fw.name name ≡ true)

  -- What a search by name is to return: nothing if no framework has the name, a framework whose id
  -- all that have the name share, or an error if two ids have the name.
  abbrev pub Selected : List (Framework N) → Result (Option (Framework N)) → Type 0
  Selected fws (ok none) = (g : Framework N) → In g fws → equal_fold g.name name ≡ false
  Selected fws (ok (some fw)) =
      Named fws fw × ((g : Framework N) → In g fws → equal_fold g.name name ≡ true → g.id ≡ fw.id)
  Selected fws (err e) =
      (g : Framework N) × (h : Framework N) × Named fws g × Named fws h × (g.id ≢ h.id)
  Selected fws panic = ⊥

  -- What the search is to return for the frameworks of a document: a panic if one of them is `null`.
  abbrev pub Searched : List (Option (Framework N)) → Result (Option (Framework N)) → Type 0
  Searched listed r =
      ((fws : List (Framework N)) × (listed ≡ map some fws) × Selected fws r)
      ⊎ (In none listed × (r ≡ panic))

  dereferenced-cases :
      (listed : List (Option (Framework N)))
      → ((fws : List (Framework N)) × (dereferenced listed ≡ ok fws) × (listed ≡ map some fws))
        ⊎ (In none listed × (dereferenced listed ≡ panic))
  unfolding dereferenced
  dereferenced-cases [] = inl ([], refl, refl)
  dereferenced-cases (none ∷ fws) = inr (inl refl, refl)
  dereferenced-cases (some fw ∷ fws) = elim (dereferenced-cases fws) [
    | inl (rest, p, q) ↦ inl (fw ∷ rest, rw p refl, ap (λ l. some fw ∷ l) q)
    | inr (m, p) ↦ inr (inr m, rw p refl)
  ]

  only-Selected :
      (fws : List (Framework N)) (m : Map (Framework N))
      → Sound name fws m
      → Unique m
      → ((g : Framework N) → In g fws → equal_fold g.name name ≡ true → Has g.id m)
      → Selected fws (only name (values m))
  unfolding only values get
  only-Selected fws [] s u all = λ g here. elim (Bool-cases (equal_fold g.name name)) [
    | inl e ↦ let (v, h) = all g here e in cc
    | inr e ↦ e
  ]
  only-Selected fws ((k, fw) ∷ []) s u all =
      let (p, here, named) = s k fw (rw eq_refl) in
      (
        (here, named),
        λ g g_here g_named.
            let (v, h) = all g g_here g_named in
            let q : k ≡ g.id = ground (arith, eq_iff k g.id, h) in sym q ∙ sym p,
      )
  only-Selected fws ((k, a) ∷ (j, b) ∷ m) s u all =
      let k≢j : (k == j) ≡ false = ground (arith, u.0, eq_iff j k, eq_iff k j) in
      let (p, a_here, a_named) = s k a (rw eq_refl) in
      let (q, b_here, b_named) = s j b (rw (k≢j, eq_refl)) in
      (
        a,
        b,
        (a_here, a_named),
        (b_here, b_named),
        λ same. ground (arith, eq_iff k j, k≢j, p, q, same),
      )

module _ {W N : Type 0} (net : Network W) (decode : StateDecoder N) (m : Mesos)
    (name : String) where
  -- When the state of the master is read, `FindFramework` returns nothing if no framework of the
  -- state has the name (case folded), a framework with the name if all that have it share one id, and
  -- an error if two of them differ in their ids; it panics if a framework of the state is `null`.
  pub find_framework-Searched :
      (w w' : W) (s : State N)
      → state net decode m w ≡ (ok s, w')
      → (r : Result (Option (Framework N))) × (find_framework net decode m name w ≡ (r, w'))
        × Searched name s.frameworks r
  unfolding find_framework find_frameworks
  find_framework-Searched w w' s h = elim (dereferenced-cases name s.frameworks) [
    | inl (fws, p, q) ↦ (
      only name (values (matching name fws [])),
      rw (h, p) refl,
      inl (
        fws,
        q,
        only-Selected name fws (matching name fws [])
            (matching-Sound name fws fws [] (λ v i. i) (empty-Sound name fws))
            (matching-Unique name fws [] tt)
            (λ g here named. matching-Has_all name g fws [] here named),
      ),
    )
    | inr (here, p) ↦ (panic, rw (h, p) refl, inr (here, refl))
  ]

  -- The search's result passed on: no framework and an error leave the world as the reading of the
  -- state left it.
  abbrev pub shut_after : Result (Option (Framework N)) → W → Result (Unit {0}) × W
  shut_after (ok none) w = (ok tt, w)
  shut_after (ok (some fw)) w = shutdown net decode m fw.id w
  shut_after (err e) w = (err e, w)
  shut_after panic w = (panic, w)

  by_name-after :
      (w w' : W) (r : Result (Option (Framework N)))
      → find_framework net decode m name w ≡ (r, w')
      → shutdown_framework_by_name net decode m name w ≡ shut_after r w'
  unfolding shutdown_framework_by_name
  by_name-after w w' (ok none) h = rw h refl
  by_name-after w w' (ok (some fw)) h = rw h refl
  by_name-after w w' (err e) h = rw h refl
  by_name-after w w' panic h = rw h refl

  -- When the state of the master is read, `ShutdownFrameworkByName` acts on what the name selects in
  -- it: with no framework of the name it succeeds and with two ids of the name it is an error, both in
  -- the world in which the state was read, and else it is the shutdown of the one id of the name. It
  -- panics if a framework of the state is `null`.
  pub shutdown_framework_by_name-Searched :
      (w w' : W) (s : State N)
      → state net decode m w ≡ (ok s, w')
      → (r : Result (Option (Framework N))) × Searched name s.frameworks r
        × (shutdown_framework_by_name net decode m name w ≡ shut_after r w')
  shutdown_framework_by_name-Searched w w' s h =
      let (r, e, c) = find_framework-Searched w w' s h in (r, c, by_name-after w w' r e)
