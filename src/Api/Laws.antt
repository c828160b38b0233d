-- ===== src/Api/Laws.antt =====
-- Which answer a handler gives, and whether it acts on the world.
use mantl_api.Prelude.{ℕ, String, ◌≡◌, refl, ◌≢◌, some, List, [], ◌∷◌}
use mantl_api.Prelude.Outcome.{Result, ok, err, panic}
use mantl_api.Marathon.{App}
use mantl_api.Mesos.{shutdown}
use mantl_api.Install.Package.Request.{PackageRequest}
use mantl_api.Install.Operations.{Env, find_installed, uninstall_package}
use mantl_api.Api.{
  HttpCall, Encoders, Api, write_error, parse_package_request, install_package_handler,
  uninstall_found, uninstall_package_handler, shutdown_framework,
}
use mantl_api.Api.Response.{Writer, fresh}

module _ {W N : Type 0} (env : Env W N) (enc : Encoders N) (api : Api N) where
  -- The status that a handler's answer has.
  abbrev pub Answers : Result Writer × W → ℕ → Type 0
  Answers p n = (v : Writer) × (p.0 ≡ ok v) × (v.status ≡ some n)

  -- The world does not change.
  abbrev pub Untouched : Result Writer × W → W → Type 0
  Untouched p w = p.1 ≡ w

  -- The answer to a removal: 204, or 500 after an error; a panic drops the connection.
  abbrev pub Removed : Result (Unit {0}) → Result Writer × W → Type 0
  Removed (ok u) p = Answers p 204
  Removed (err e) p = Answers p 500
  Removed panic p = p.0 ≡ panic

  -- What is to be done with the applications that a request to uninstall names: nothing and 404 for
  -- none, nothing and 409 for several, and for one its removal and the answer to that.
  abbrev pub Uninstalls : List (App N) → W → Result Writer × W → Type 0
  Uninstalls [] w p = Answers p 404 × Untouched p w
  Uninstalls (a ∷ []) w p =
      let u = uninstall_package env api.install (some a) w in Removed u.0 p × (p.1 ≡ u.1)
  Uninstalls (a ∷ b ∷ more) w p = Answers p 409 × Untouched p w

  uninstall_found-Removed :
      (req : PackageRequest N) (a : App N) (w : W) (r : Result (Unit {0}))
      → (uninstall_package env api.install (some a) w).0 ≡ r
      → Uninstalls (a ∷ []) w (uninstall_found env enc api req fresh (a ∷ []) w)
  unfolding uninstall_found write_error
  uninstall_found-Removed req a w (ok u) h = rw h ((_, refl, refl), refl)
  uninstall_found-Removed req a w (err e) h = rw h ((_, refl, refl), refl)
  uninstall_found-Removed req a w panic h = rw h (refl, refl)

  uninstall_found-Uninstalls :
      (req : PackageRequest N) (found : List (App N)) (w : W)
      → Uninstalls found w (uninstall_found env enc api req fresh found w)
  unfolding uninstall_found
  uninstall_found-Uninstalls req [] w = ((_, refl, refl), refl)
  uninstall_found-Uninstalls req (a ∷ []) w =
      uninstall_found-Removed req a w (uninstall_package env api.install (some a) w).0 refl
  uninstall_found-Uninstalls req (a ∷ b ∷ more) w = ((_, refl, refl), refl)

  -- The handler of an uninstall request, once the applications it names are found, does with them
  -- what their number asks for: nothing and 404, nothing and 409, or the removal of the one, with 204
  -- or 500.
  pub uninstall_package_handler-Uninstalls :
      (call : HttpCall) (req : PackageRequest N) (found : List (App N)) (w w' : W)
      → parse_package_request env enc api call w ≡ (ok req, w)
      → find_installed env api.install req w ≡ (ok found, w')
      → Uninstalls found w' (uninstall_package_handler env enc api call fresh w)
  unfolding uninstall_package_handler
  uninstall_package_handler-Uninstalls call req found w w' p q =
      rw (p, q) (uninstall_found-Uninstalls req found w')

  -- If reading or parsing the request is an error, as for a text that is no JSON or names no
  -- package, both handlers answer 400 and nothing is done.
  package_handlers-err :
      (call : HttpCall) (e : String) (w : W)
      → parse_package_request env enc api call w ≡ (err e, w)
      → Answers (install_package_handler env enc api call fresh w) 400
        × Untouched (install_package_handler env enc api call fresh w) w
        × Answers (uninstall_package_handler env enc api call fresh w) 400
        × Untouched (uninstall_package_handler env enc api call fresh w) w
  unfolding install_package_handler uninstall_package_handler write_error
  package_handlers-err call e w h = rw h ((_, refl, refl), refl, (_, refl, refl), refl)

  -- If the shutdown does not panic, the handler of a framework's shutdown answers 202 whether it
  -- succeeds or fails, so the 500 of the error branch is never sent; it leaves the world as the
  -- shutdown does.
  pub shutdown_framework-202 :
      (call : HttpCall) (w : W)
      → (shutdown env.net env.state_decoder api.mesos call.id w).0 ≢ panic
      → Answers (shutdown_framework env enc api call fresh w) 202
        × ((shutdown_framework env enc api call fresh w).1
            ≡ (shutdown env.net env.state_decoder api.mesos call.id w).1)
  unfolding shutdown_framework write_error
  shutdown_framework-202 call w calm =
      go (shutdown env.net env.state_decoder api.mesos call.id w).0 refl
    where
      go :
          (r : Result (Unit {0}))
          → (shutdown env.net env.state_decoder api.mesos call.id w).0 ≡ r
          → Answers (shutdown_framework env enc api call fresh w) 202
            × ((shutdown_framework env enc api call fresh w).1
                ≡ (shutdown env.net env.state_decoder api.mesos call.id w).1)
      go (ok u) p = rw p ((_, refl, refl), refl)
      go (err e) p = rw p ((_, refl, refl), refl)
      go panic p = absurd (calm p)
