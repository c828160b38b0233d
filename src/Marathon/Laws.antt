-- ===== src/Marathon/Laws.antt =====
-- What the calls of Marathon return for each answer.
use Prim.Native.String.{◌++◌}
use mantl_api.Prelude.{
  String, ◌≡◌, refl, ◌≢◌, ap, sym, List, [], inl, inr, ◌⊎◌, Bool-cases, eqb, arith,
}
use mantl_api.Prelude.Outcome.{Result, ok, err, panic}
use mantl_api.Prelude.Outcome as R
use mantl_api.Prelude.Exec.{>>=-eq-ok}
use mantl_api.Http.{Network, HttpRequest, http_get, http_post, http_delete}
use mantl_api.Marathon.{App, AppCodec, Marathon, apps_in, apps, create_app, destroy_app}

module _ {W N : Type 0} (net : Network W) (codec : AppCodec N) (m : Marathon) where
  -- If `Apps` returns a list of applications, then Marathon was asked once, and either it answered 200
  -- and the list is what its text holds, or it answered another status and the list is empty.
  pub apps-ok :
      (w w' : W) (found : List (App N))
      → apps net codec m w ≡ (ok found, w')
      → (req : HttpRequest) × (http_get net m.http_client "/v2/apps/" w ≡ (ok req, w'))
        × (((req.response.status ≡ 200) × (codec.apps_of req.response_body ≡ ok found))
            ⊎ ((req.response.status ≢ 200) × (found ≡ [])))
  unfolding apps apps_in
  apps-ok w w' found h =
      let (req, w1, p, q) = >>=-eq-ok _ (http_get net m.http_client "/v2/apps/") w h in
      let a = ap (λ z. z.0) q in
      (
        req,
        rw (← ap (λ z. z.1) q) p,
        elim (Bool-cases (eqb req.response.status 200)) [
          | inl e ↦ inl (ground (arith, e), rw e at a)
          | inr e ↦ inr (λ s. ground (arith, e, s), R.ok-injective (sym (rw e at a)))
        ],
      )

  -- `DestroyApp` returns no error exactly when Marathon answers the deletion with 200; its error leaves
  -- the world as the answer left it.
  destroy_app-status :
      (app_id : String) (w w' : W) (req : HttpRequest)
      → http_delete net m.http_client ("/v2/apps" ++ app_id) w ≡ (ok req, w')
      → ((req.response.status ≡ 200)
          × (destroy_app net codec m app_id w ≡ (ok req.response_text, w')))
        ⊎ ((req.response.status ≢ 200)
            × ((e : String) × (destroy_app net codec m app_id w ≡ (err e, w'))))
  unfolding destroy_app
  destroy_app-status app_id w w' req h = elim (Bool-cases (eqb req.response.status 200)) [
    | inl e ↦ inl (ground (arith, e), rw (h, e) refl)
    | inr e ↦ inr (
      λ s. ground (arith, e, s),
      ("Failed deleting " ++ app_id ++ " from marathon: " ++ req.response_text, rw (h, e) refl),
    )
  ]

  -- Once the application is encoded and Marathon has answered, `CreateApp` returns an error if the
  -- status is 409, and with every other status, 400 and 500 among them, the text of the answer.
  pub create_app-status :
      (app : App N) (blob : String) (w w' : W) (req : HttpRequest)
      → codec.json_of app ≡ ok blob
      → http_post net m.http_client "/v2/apps/" blob w ≡ (ok req, w')
      → ((req.response.status ≡ 409)
          × (create_app net codec m app w ≡ (err "409 Conflict - application already exists", w')))
        ⊎ ((req.response.status ≢ 409)
            × (create_app net codec m app w ≡ (ok req.response_text, w')))
  unfolding create_app
  create_app-status app blob w w' req encoded h = elim (Bool-cases (eqb req.response.status 409)) [
    | inl e ↦ inl (ground (arith, e), rw (encoded, h, e) refl)
    | inr e ↦ inr (λ s. ground (arith, e, s), rw (encoded, h, e) refl)
  ]
