-- ===== src/Install/Package/Request.antt =====
-- `PackageRequest` and `NewPackageRequest` of install/package.go.
use mantl_api.Prelude.{
  String, ◌≡◌, ◌≢◌, ◌==◌, eq_iff, arith, ap, inl, inr, Bool-cases, if◌then◌else◌,
}
use mantl_api.Prelude.Text.{equal_fold}
use mantl_api.Prelude.Outcome.{Result, ok, err, panic, ◌>>=◌, >>=-eq-ok}
use mantl_api.Json.{
  Value, null, obj, Fields, end, field, put, Codec, mismatch, to_string, to_struct,
}

pub record PackageRequest (N : Type 0) : Type 0 where
  pub name : String
  pub version : String
  pub app_id : String
  pub config : Fields N
  pub uninstall_options : Fields N

module _ {N : Type 0} where
  abbrev pub empty : PackageRequest N
  empty = record { name = ""; version = ""; app_id = ""; config = end; uninstall_options = end }

  -- The keys of a document are stored into the map that is there, each with its new value.
  unfoldable pub store : Fields N → Fields N → Fields N
  store end old = old
  store (field k v m) old = store m (put k v old)

  -- `json.Unmarshal` into a map: `null` makes it nil.
  into_map : Fields N → Value N → Result (Fields N)
  unfolding store
  into_map old null = ok end
  into_map old (obj m) = ok (store m old)
  into_map old _ = mismatch

  assign : String → Value N → PackageRequest N → Result (PackageRequest N)
  unfolding into_map
  assign k v r =
      if equal_fold k "name"
      then (do s ← to_string r.name v; ok (record r { name = s }))
      else if equal_fold k "version"
      then (do s ← to_string r.version v; ok (record r { version = s }))
      else if equal_fold k "id"
      then (do s ← to_string r.app_id v; ok (record r { app_id = s }))
      else if equal_fold k "config"
      then (do m ← into_map r.config v; ok (record r { config = m }))
      else if equal_fold k "uninstallOptions"
      then (do m ← into_map r.uninstall_options v; ok (record r { uninstall_options = m }))
      else ok r

  -- `json.Unmarshal` into a pointer: `null` makes the pointer nil, and reading the name panics.
  unfoldable pub decode : Value N → Result (PackageRequest N)
  unfolding assign
  decode null = panic
  decode (obj m) = to_struct assign m empty
  decode _ = mismatch

  unfoldable pub check_name : PackageRequest N → Result (PackageRequest N)
  check_name r = if r.name == "" then err "Name is required" else ok r

  -- `NewPackageRequest`
  unfoldable pub new_package_request : Codec N → String → Result (PackageRequest N)
  new_package_request c body =
      if body == "" then check_name empty else do v ← c.parse body; r ← decode v; check_name r

  check_name-ne-nil : (q r : PackageRequest N) → check_name q ≡ ok r → (r ≡ q) × (r.name ≢ "")
  unfolding check_name
  check_name-ne-nil q r h =
      (ground (arith, eq_iff q.name ""), ground (arith, eq_iff q.name "", eq_iff r.name ""))

  -- A request that is accepted has a name, and comes from a body that is not empty.
  new_package_request_named :
      (c : Codec N) (body : String) (r : PackageRequest N)
      → new_package_request c body ≡ ok r
      → (r.name ≢ "") × (body ≢ "")
  unfolding new_package_request
  new_package_request_named c body r h = elim (Bool-cases (body == "")) [
    | inl e ↦ absurd (
        (check_name-ne-nil empty r (rw e at h)).1
          (ap (λ (q : PackageRequest N). q.name) (check_name-ne-nil empty r (rw e at h)).0))
    | inr e ↦
        let (v, _, h') = >>=-eq-ok (c.parse body) _ (rw e at h) in
        let (q, _, h'') = >>=-eq-ok (decode v) _ h' in
        ((check_name-ne-nil q r h'').1, λ p. cc ((eq_iff body "").1 p))
  ]
