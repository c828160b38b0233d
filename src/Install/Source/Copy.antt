-- ===== src/Install/Source/Copy.antt =====
-- What the store holds after a source is copied.
use mantl_api.Prelude.{
  String, ◌≡◌, sym, ap, ◌∙◌, ◌==◌, eq_refl, true, false, Option, some, List, [], ◌∷◌, ◌++◌, inl,
  inr, ◌⊎◌, Bool-cases, if◌then◌else◌,
}
use mantl_api.Prelude.Lists.{All}
use mantl_api.Prelude.Slash.{path_join}
use mantl_api.Prelude.Outcome.{ok, ok-injective}
use mantl_api.Prelude.Exec.{>>=-eq-ok}
use mantl_api.Consul.{Consul}
use mantl_api.Install.Source.{
  Source, Host, root_key, source_timestamp_key, is_source_artifact, add_source_artifact, visit,
  visit_all, sync,
}
use mantl_api.Install.Source.Laws.{sync-ok}

-- A store in which a value that is put is there, and a disk whose files do not change; `look` reads
-- the store and `content` the disk.
pub record Faithful {W : Type 0} (consul : Consul W) (host : Host W)
    (look : W → String → Option String) (content : String → String) : Type 0 where
  pub puts :
      (k v j : String) (w w' : W)
      → consul.put k v w ≡ (ok tt, w')
      → look w' j ≡ (if k == j then some v else look w j)
  pub reads :
      (p t : String) (w w' : W)
      → host.read_file p w ≡ (ok t, w')
      → (t ≡ content p) × ((j : String) → look w' j ≡ look w j)
  pub lists :
      (p j : String) (fs : List String) (w w' : W)
      → host.visits p w ≡ (ok fs, w')
      → look w' j ≡ look w j
  pub clock : (j t : String) (w w' : W) → host.now w ≡ (ok t, w') → look w' j ≡ look w j

module _ {W : Type 0} (consul : Consul W) (host : Host W) (look : W → String → Option String)
    (content : String → String) (faithful : Faithful consul host look content) (s : Source)
    (base : String) where
  -- the key that a file of the source is stored under
  abbrev pub key_of : String → String
  key_of r = path_join (root_key s ∷ r ∷ [])

  -- A file that is not stored under the key.
  abbrev pub Elsewhere : String → String → Type 0
  Elsewhere k file =
      (is_source_artifact file ≡ false)
      ⊎ ((r : String) × (host.rel base file ≡ ok r) × ((key_of r == k) ≡ false))

  visit-look :
      (file r k : String) (w w' : W)
      → is_source_artifact file ≡ true
      → host.rel base file ≡ ok r
      → visit consul host s base file w ≡ (ok tt, w')
      → look w' k ≡ (if key_of r == k then some (content file) else look w k)
  unfolding visit add_source_artifact
  visit-look file r k w w' a e h =
      let (t, w1, p, q) = >>=-eq-ok _ (host.read_file file) w (rw (a, e) at h) in
      let (same, kept) = faithful.reads file t w w1 p in
      rw (← same, ← kept k) (faithful.puts (key_of r) t k w1 w' q)

  visit-Elsewhere :
      (file k : String) (w w' : W)
      → Elsewhere k file
      → visit consul host s base file w ≡ (ok tt, w')
      → look w' k ≡ look w k
  unfolding visit
  visit-Elsewhere file k w w' away h = elim (Bool-cases (is_source_artifact file)) [
    | inr a ↦ ap (λ v. look v k) (sym (ap (λ z. z.1) (rw a at h)))
    | inl a ↦ elim away [
      | inl no_file ↦ cc
      | inr (r, e, other) ↦ rw other at (visit-look file r k w w' a e h)
    ]
  ]

  visit_all-Elsewhere :
      (files : List String) (k : String) (w w' : W)
      → All (Elsewhere k) files
      → visit_all consul host s base files w ≡ (ok tt, w')
      → look w' k ≡ look w k
  unfolding visit_all
  visit_all-Elsewhere [] k w w' away h = ap (λ v. look v k) (sym (ap (λ z. z.1) h))
  visit_all-Elsewhere (file ∷ files) k w w' away h =
      let (u, w1, p, q) = >>=-eq-ok _ (visit consul host s base file) w h in
      visit_all-Elsewhere files k w1 w' away.1 q ∙ visit-Elsewhere file k w w1 away.0 p

  visit_all-look :
      (front : List String) (file r : String) (back : List String) (w w' : W)
      → is_source_artifact file ≡ true
      → host.rel base file ≡ ok r
      → All (Elsewhere (key_of r)) back
      → visit_all consul host s base (front ++ file ∷ back) w ≡ (ok tt, w')
      → look w' (key_of r) ≡ some (content file)
  unfolding visit_all
  visit_all-look [] file r back w w' a e away h =
      let (u, w1, p, q) = >>=-eq-ok _ (visit consul host s base file) w h in
      visit_all-Elsewhere back (key_of r) w1 w' away q
      ∙ (rw eq_refl at (visit-look file r (key_of r) w w1 a e p))
  visit_all-look (g ∷ front) file r back w w' a e away h =
      let (u, w1, p, q) = >>=-eq-ok _ (visit consul host s base g) w h in
      visit_all-look front file r back w1 w' a e away q

  -- With a store that keeps what is put, on a disk whose files do not change: after a copy that
  -- succeeds, a JSON file that the walk visits is in the store under its relative path, with the
  -- text that it has on the disk, unless a file visited later, the source's name or its timestamp
  -- goes under the same key.
  pub sync-look :
      (front : List String) (file r : String) (back : List String) (w w1 w' : W)
      → sync consul host s base w ≡ (ok tt, w')
      → host.visits base w ≡ (ok (front ++ file ∷ back), w1)
      → is_source_artifact file ≡ true
      → host.rel base file ≡ ok r
      → All (Elsewhere (key_of r)) back
      → (path_join (root_key s ∷ "name" ∷ []) == key_of r) ≡ false
      → (source_timestamp_key s == key_of r) ≡ false
      → look w' (key_of r) ≡ some (content file)
  sync-look front file r back w w1 w' h v a e away no_name no_time =
      let (files, u1, u2, u3, now, u4, listed, visited, named, timed, stamped) =
        sync-ok consul host s base w w' h in
      let same_files : files ≡ front ++ file ∷ back =
        ok-injective (ap (λ z. z.0) (sym listed ∙ v)) in
      (rw no_time at (faithful.puts (source_timestamp_key s) now (key_of r) u4 w' stamped))
      ∙ faithful.clock (key_of r) now u3 u4 timed
      ∙ (rw no_name at
          (faithful.puts (path_join (root_key s ∷ "name" ∷ [])) s.name (key_of r) u2 u3 named))
      ∙ visit_all-look front file r back u1 u2 a e away (rw same_files at visited)
