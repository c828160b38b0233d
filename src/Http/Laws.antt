-- ===== src/Http/Laws.antt =====
-- What a request is refused for, and what it is sent with.
use mantl_api.Prelude.{String, ◌≡◌, refl, ap, Option, none, some}
use mantl_api.Prelude.Outcome.{Result, ok, err, panic}
use mantl_api.Prelude.Outcome as R
use mantl_api.Prelude.Exec.{lift, ◌>>=◌, >>=-eq-ok}
use mantl_api.Http.{
  HttpClient, Request, Response, HttpRequest, Network, url, request_for, received, refused,
  do_request,
}

received-ok :
    (request : Request) (response : Response) (r : HttpRequest)
    → received request response ≡ ok r
    → (r.request ≡ request)
      × (r.response ≡ response)
      × (response.body ≡ ok r.response_text)
      × (r.response_body ≡ r.response_text)
unfolding received
received-ok request response r h =
    let (text, e, q) = R.>>=-eq-ok response.body _ h in
    let p = R.ok-injective q in (rw (← p) refl, rw (← p) refl, rw (← p) e, rw (← p) refl)

module _ {W : Type 0} (net : Network W) (c : HttpClient) (method path body : String) where
  -- A request that `doRequest` returns was accepted as a request, is the one that was built for the
  -- client, method, path and body, and was sent once; what is returned with it is the response to it,
  -- with its whole text.
  pub do_request-ok :
      (w w' : W) (r : HttpRequest)
      → do_request net c method path body w ≡ (ok r, w')
      → (net.refuses method (url c path) ≡ none)
        × (r.request ≡ request_for c method path body)
        × (net.send (request_for c method path body) w ≡ (ok r.response, w'))
        × (r.response.body ≡ ok r.response_text)
        × (r.response_body ≡ r.response_text)
  unfolding do_request refused
  do_request-ok w w' r h = go (net.refuses method (url c path)) refl h
    where
      go :
          (o : Option String)
          → net.refuses method (url c path) ≡ o
          → refused o
              (net.send (request_for c method path body) >>= λ response.
                lift (received (request_for c method path body) response))
              w
            ≡ (ok r, w')
          → (net.refuses method (url c path) ≡ none)
            × (r.request ≡ request_for c method path body)
            × (net.send (request_for c method path body) w ≡ (ok r.response, w'))
            × (r.response.body ≡ ok r.response_text)
            × (r.response_body ≡ r.response_text)
      go (some e) q p = cc (ap (λ z. z.0) p)
      go none q p =
          let (response, w1, s, t) = >>=-eq-ok _ (net.send (request_for c method path body)) w p in
          let (a, b, d, e) =
            received-ok (request_for c method path body) response r (ap (λ z. z.0) t) in
          (q, a, rw (b, ← ap (λ z. z.1) t) s, rw b d, e)
