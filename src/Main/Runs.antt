-- ===== src/Main/Runs.antt =====
-- What `start` leaves running: `Watch`, the API, and the other clients that write to the same Consul.
-- A step is one whole tick, one whole request to the API, or one write of another client.
use mantl_api.Prelude.{
  String, ◌≡◌, ap, ◌∙◌, ◌≢◌, ◌==◌, eq_iff, Option, none, some, List, [], ◌∷◌, ◌++◌, inl, inr,
  Bool-cases, if◌then◌else◌,
}
use mantl_api.Prelude.Dict.{Map}
use mantl_api.Prelude.Lists.{In, All, All-In}
use mantl_api.Prelude.Outcome.{ok, err}
use mantl_api.Install.Repository.{apps_root}
use mantl_api.Install.Operations.{Env}
use mantl_api.Install.Operations.Confined.{Confined}
use mantl_api.Install.Monitor.{watch_tick}
use mantl_api.Install.Monitor.Served.{
  Keyed, IsRequest, undeleted, watch_tick-serves, watch_tick-absent, watch_tick-missed,
}
use mantl_api.Api.Response.{Writer}
use mantl_api.Api.{Api, Encoders, HttpCall, Handler, routes}
use mantl_api.Api.Confined.{routes-Keeps}

-- A tick that reads the pairs, with the keys whose deletion returned an error; one that cannot read
-- them; a request to the API; and a write by another client.
pub data Event : Type 0 where
  ticked : List String → Event
  missed : Event
  served : Event
  written : String → Event

-- `start` shares one installer between `Watch` and the API.
pub data Step {W N : Type 0} (env : Env W N) (enc : Encoders N) (api : Api N) (agent now : String)
    : Event → W → W → Type 0 where
  ticks :
      {pairs : Map String} {w w1 w' : W}
      → env.consul.list apps_root w ≡ (ok pairs, w1)
      → watch_tick env api.install w ≡ (ok tt, w')
      → Step env enc api agent now (ticked (undeleted env api.install pairs w1)) w w'
  misses :
      {e : String} {w w1 w' : W}
      → env.consul.list apps_root w ≡ (err e, w1)
      → watch_tick env api.install w ≡ (ok tt, w')
      → Step env enc api agent now missed w w'
  serves :
      {w : W} (r : String × String × Handler W) (call : HttpCall) (writer : Writer)
      → In r (routes env enc api agent now)
      → Step env enc api agent now served w (r.2 call writer w).1
  writes :
      {w w' : W} (k v : String)
      → env.consul.put k v w ≡ (ok tt, w')
      → Step env enc api agent now (written k) w w'

pub data Run {W N : Type 0} (env : Env W N) (enc : Encoders N) (api : Api N) (agent now : String)
    : List Event → W → W → Type 0 where
  rest : {w : W} → Run env enc api agent now [] w w
  next :
      {e : Event} {es : List Event} {w w1 w' : W}
      → Step env enc api agent now e w w1
      → Run env enc api agent now es w1 w'
      → Run env enc api agent now (e ∷ es) w w'

module _ {W N : Type 0} (look : W → String → Option String) (env : Env W N) (enc : Encoders N)
    (api : Api N) (agent now : String) (keyed : Keyed look env.consul) (h : Confined look env)
    (puts : (k v j : String) (w w' : W)
      → env.consul.put k v w ≡ (ok tt, w')
      → look w' j ≡ (if k == j then some v else look w j)) where
  -- a step that does not write a key does not bring it back
  Step-absent :
      {e : Event} {w w' : W} (j : String)
      → IsRequest j
      → e ≢ written j
      → Step env enc api agent now e w w'
      → look w j ≡ none
      → look w' j ≡ none
  Step-absent j r n (ticks {pairs} {w} {w1} {w'} l t) a =
      watch_tick-absent look env keyed h api.install pairs j w w1 w' l t a
  Step-absent j r n (misses {e} {w} {w1} {w'} l t) a =
      ap (λ f. f j) (watch_tick-missed look env keyed h api.install e w w1 w' l t) ∙ a
  Step-absent j r n (serves {w} route call writer m) a =
      ap (λ f. f j)
        ((All-In _ _ route (routes-Keeps look env enc api h agent now) m call writer).same w)
      ∙ a
  Step-absent j r n (writes {w} {w'} k v p) a = elim (Bool-cases (k == j)) [
    | inl e ↦ absurd (n (ap written ((eq_iff k j).0 e)))
    | inr e ↦ puts k v j w w' p ∙ ap (λ b. if b then some v else look w j) e ∙ a
  ]

  ticked-absent :
      {failed : List String} {w w' : W} (j : String)
      → IsRequest j
      → (In j failed → ⊥)
      → Step env enc api agent now (ticked failed) w w'
      → look w' j ≡ none
  ticked-absent j r n (ticks {pairs} {w} {w1} {w'} l t) =
      elim ((watch_tick-serves look env keyed h api.install pairs j w w1 w' l t).0 r) [
        | inl a ↦ a
        | inr f ↦ absurd (n f)
      ]

  Run-absent :
      (es : List Event) {w w' : W} (j : String)
      → IsRequest j
      → All (λ e. e ≢ written j) es
      → Run env enc api agent now es w w'
      → look w j ≡ none
      → look w' j ≡ none
  Run-absent es j r n rest a = a
  Run-absent (e ∷ es) j r n (next s more) a = Run-absent es j r n.1 more (Step-absent j r n.0 s a)

  -- In every run in which a tick that can read its pairs, and whose deletion of a request returns no
  -- error, comes after the last write of the request, the request is gone at the end, however ticks,
  -- requests to the API and writes of others are ordered before and after that tick, and whatever
  -- other deletions fail. It is required of Consul that a deletion without an error deletes its key
  -- and no other, and that one with an error has deleted its key or changed nothing.
  pub Run-served :
      (before after : List Event) (failed : List String) (w w' : W) (j : String)
      → IsRequest j
      → (In j failed → ⊥)
      → All (λ e. e ≢ written j) after
      → Run env enc api agent now (before ++ ticked failed ∷ after) w w'
      → look w' j ≡ none
  Run-served [] after failed w w' j r f n (next s more) =
      Run-absent after j r n more (ticked-absent j r f s)
  Run-served (e ∷ before) after failed w w' j r f n (next s more) =
      Run-served before after failed _ w' j r f n more
