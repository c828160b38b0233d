-- ===== src/Json/Laws.antt =====
-- The map laws of `Fields`.
use mantl_api.Prelude.{
  String, ◌≡◌, refl, ◌==◌, eq_iff, some, arith, if◌then◌else◌, inl, inr, Bool-cases,
}
use mantl_api.Json.{Value, Fields, end, field, get, put, Unique}

module _ {N : Type 0} where
  pub get-put :
      (k j : String) (v : Value N) (m : Fields N)
      → get j (put k v m) ≡ (if k == j then some v else get j m)
  unfolding get put
  get-put k j v end = refl
  get-put k j v (field i w m) = ground (arith, eq_iff k j, eq_iff i k, eq_iff i j, get-put k j v m)

  pub put-Unique : (k : String) (v : Value N) (m : Fields N) → Unique m → Unique (put k v m)
  unfolding get put
  put-Unique k v end u = (refl, tt)
  put-Unique k v (field j w m) u = elim (Bool-cases (j == k)) [
    | inl e ↦ rw e (rw ((eq_iff j k).0 e) at u.0, u.1)
    | inr e ↦
        rw e (ground (arith, get-put k j v m, eq_iff k j, eq_iff j k, u.0), put-Unique k v m u.1)
  ]
