-- ===== src/Install/Source/Laws.antt =====
-- When a source is copied, and what a copy ends with.
use mantl_api.Prelude.{
  String, ◌≡◌, refl, ap, ◌≢◌, eqb, arith, false, List, [], ◌∷◌, inl, inr, Bool-cases,
}
use mantl_api.Prelude.Lists.{In}
use mantl_api.Prelude.Int.{ℤ, pos, negsuc}
use mantl_api.Prelude.Slash.{path_join}
use mantl_api.Prelude.Outcome.{ok}
use mantl_api.Prelude.Exec.{>>=-eq-ok}
use mantl_api.Consul.{Consul}
use mantl_api.Install.Source.{
  Source, Host, root_key, source_timestamp_key, is_zero, source_last_updated, visit_all, set_name,
  set_timestamp, sync, sync_sources,
}

module _ {W : Type 0} (consul : Consul W) (host : Host W) where
  is_zero-false : (t : ℤ) → t ≢ pos 0 → is_zero t ≡ false
  unfolding is_zero
  is_zero-false (pos n) h = elim (Bool-cases (eqb n 0)) [
    | inl e ↦ absurd (h (ap pos (ground (arith, e))))
    | inr e ↦ e
  ]
  is_zero-false (negsuc n) h = refl

  -- Sources whose timestamps can be read and are later than the zero time are not copied again unless
  -- that is forced: nothing is written.
  pub sync_sources-fresh :
      (ss : List Source) (w : W)
      → ((s : Source)
          → In s ss
          → (t : ℤ) × (source_last_updated consul host s w ≡ (ok t, w)) × (t ≢ pos 0))
      → sync_sources consul host ss false w ≡ (ok tt, w)
  unfolding sync_sources
  sync_sources-fresh [] w fresh = refl
  sync_sources-fresh (s ∷ ss) w fresh =
      let (t, p, z) = fresh s (inl refl) in
      rw (p, is_zero-false t z) (sync_sources-fresh ss w (λ r m. fresh r (inr m)))

  -- A copy that succeeds has visited every file, then written the name of the source and, last of all,
  -- the time as its timestamp: a copy that fails before leaves no new timestamp.
  pub sync-ok :
      (s : Source) (path : String) (w w' : W)
      → sync consul host s path w ≡ (ok tt, w')
      → (files : List String) × (w1 : W) × (w2 : W) × (w3 : W) × (now : String) × (w4 : W)
        × (host.visits path w ≡ (ok files, w1))
        × (visit_all consul host s path files w1 ≡ (ok tt, w2))
        × (consul.put (path_join (root_key s ∷ "name" ∷ [])) s.name w2 ≡ (ok tt, w3))
        × (host.now w3 ≡ (ok now, w4))
        × (consul.put (source_timestamp_key s) now w4 ≡ (ok tt, w'))
  unfolding sync set_name set_timestamp
  sync-ok s path w w' h =
      let (files, w1, a, h1) = >>=-eq-ok _ (host.visits path) w h in
      let (u, w2, b, h2) = >>=-eq-ok _ (visit_all consul host s path files) w1 h1 in
      let (v, w3, c, h3) =
        >>=-eq-ok _ (consul.put (path_join (root_key s ∷ "name" ∷ [])) s.name) w2 h2 in
      let (now, w4, d, e) = >>=-eq-ok _ host.now w3 h3 in
      (files, w1, w2, w3, now, w4, a, b, c, d, e)
