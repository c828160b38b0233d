-- ===== src/Tests/Monitor.antt =====
-- Runs of install/consul_monitor.go beside the API, over a store that keeps to its keys.
use mathlib.Core.Path.{subst}
use mantl_api.Prelude.{
  ℕ, String, ◌≡◌, refl, ap, sym, ◌∙◌, ◌==◌, eq_iff, Bool, true, false, Option, none, some, List, [],
  ◌∷◌, inl, inr, eqb, Bool-cases, if◌then◌else◌, arith,
}
use mantl_api.Prelude.Dict.{Map, get, put, keys, get-put}
use mantl_api.Prelude.Lists.{In, All}
use mantl_api.Prelude.Text.{has_prefix}
use mantl_api.Prelude.Outcome.{Result, ok, ok-injective}
use mantl_api.Prelude.Exec.Keeps.{Keeps}
use mantl_api.Consul.{Consul}
use mantl_api.Install.Operations.{Env}
use mantl_api.Install.Operations.Confined.{Confined}
use mantl_api.Install.Monitor.{watch_tick}
use mantl_api.Install.Monitor.Served.{Keyed, IsRequest, undeleted}
use mantl_api.Api.{Api, Encoders, HttpCall, Handler, routes}
use mantl_api.Api.Response.{Writer, fresh}
use mantl_api.Api.Confined.{routes-Keeps}
use mantl_api.Main.Runs.{
  Event, ticked, served, written, Run, rest, next, ticks, serves, writes, Run-served,
}
use mantl_api.Tests.{net}
use mantl_api.Tests.World.{env, mesos, installer}

-- `drop` takes a key out of the store, and `under` lists the pairs of a prefix.
unfoldable drop : String → Map String → Map String
drop k [] = []
drop k ((j, v) ∷ m) = let rest = drop k m in if j == k then rest else (j, v) ∷ rest

unfoldable under : String → Map String → Map String
under prefix [] = []
under prefix ((j, v) ∷ m) =
    let rest = under prefix m in if has_prefix j prefix then (j, v) ∷ rest else rest

abbrev kv : Consul (Map String)
kv = record {
  get = λ key w. (ok (get key w), w);
  keys = λ prefix sep w. (ok [], w);
  put = λ key v w. (ok tt, put key v w);
  delete = λ key w. (ok tt, drop key w);
  list = λ prefix w. (ok (under prefix w), w);
  service = λ name tag w. (ok [], w);
}

abbrev kv_env : Env (Map String) ℕ
kv_env = record env { consul = kv; zk = record env.zk { delete = λ key w. (ok tt, w) } }

abbrev look : Map String → String → Option String
look m k = get k m

none_either : (b : Bool) → Path (Option String) none (if b then none else none)
none_either true = refl
none_either false = refl

get-drop : (k j : String) (m : Map String) → get j (drop k m) ≡ (if k == j then none else get j m)
unfolding get drop
get-drop k j [] = none_either (k == j)
get-drop k j ((i, v) ∷ m) = ground (arith, eq_iff k j, eq_iff i k, eq_iff i j, get-drop k j m)

under-lists :
    (prefix k v : String) (m : Map String)
    → has_prefix k prefix ≡ true
    → get k m ≡ some v
    → In k (keys (under prefix m))
unfolding get under keys
under-lists prefix k v [] h g = cc
under-lists prefix k v ((j, u) ∷ m) h g = elim (Bool-cases (j == k)) [
  | inl e ↦ rw ((eq_iff j k).0 e, h) (inl refl)
  | inr e ↦ elim (Bool-cases (has_prefix j prefix)) [
    | inl p ↦ rw p (inr (under-lists prefix k v m h (rw e at g)))
    | inr p ↦ rw p (under-lists prefix k v m h (rw e at g))
  ]
]

under-only :
    (prefix k : String) (m : Map String) → In k (keys (under prefix m)) → has_prefix k prefix ≡ true
unfolding under keys
under-only prefix k [] n = absurd n
under-only prefix k ((j, u) ∷ m) n = elim (Bool-cases (has_prefix j prefix)) [
  | inl e ↦ elim (rw e at n) [ inl p ↦ rw p e | inr r ↦ under-only prefix k m r ]
  | inr e ↦ under-only prefix k m (rw e at n)
]

kv-Keyed : Keyed look kv
kv-Keyed = record {
  deletes =
      λ k j w w' h. ap (λ (z : Result (Unit {0}) × Map String). get j z.1) (sym h) ∙ get-drop k j w;
  fails = λ k j e w w' h. cc (ap (λ (z : Result (Unit {0}) × Map String). z.0) h);
  keeps_list = λ prefix. record { same = λ w. refl };
  lists = λ prefix k v pairs w w' e h g.
      subst (λ l. In k (keys l)) (ok-injective (ap (λ z. z.0) e)) (under-lists prefix k v w h g);
  lists_only = λ prefix k pairs w w' e n.
      under-only prefix k w (subst (λ l. In k (keys l)) (sym (ok-injective (ap (λ z. z.0) e))) n);
}

kv_env-Confined : Confined look kv_env
kv_env-Confined = record {
  reads = record {
    gets = λ key. record { same = λ w. refl };
    lists_keys = λ prefix sep. record { same = λ w. refl };
  };
  sends = λ request. record { same = λ w. refl };
  connects = λ servers. record { same = λ w. refl };
  closes = record { same = λ w. refl };
  lists_nodes = λ key. record { same = λ w. refl };
  deletes_nodes = λ key. record { same = λ w. refl };
}

kv_puts :
    (k v j : String) (w w' : Map String)
    → kv.put k v w ≡ (ok tt, w')
    → look w' j ≡ (if k == j then some v else look w j)
kv_puts k v j w w' e =
    ap (λ (z : Result (Unit {0}) × Map String). get j z.1) (sym e) ∙ get-put k j v w

-- a request that cannot be parsed, and a repository
abbrev left : Map String
left = ("mantl-install/repository/9/name", "a") ∷ ("mantl-install/apps/spark", "junk") ∷ []

abbrev emptied : Map String
emptied = ("mantl-install/repository/9/name", "a") ∷ []

spark-IsRequest : IsRequest "mantl-install/apps/spark"
unfolding has_prefix mantl_api.Prelude.Text.trim_prefix
spark-IsRequest = record { below = refl; named = refl }

tick : watch_tick kv_env installer left ≡ (ok tt, emptied)
unfolding watch_tick mantl_api.Install.Monitor.install_pairs under has_prefix
    mantl_api.Prelude.Text.trim_prefix mantl_api.Install.Monitor.install_package_from_kv_pair
    mantl_api.Install.Monitor.install_value mantl_api.Install.Package.Request.new_package_request
    mantl_api.Tests.parse drop
tick = refl

abbrev api : Api ℕ
api = record { install = installer; mesos = mesos }

abbrev enc : Encoders ℕ
enc = record {
  packages_json = λ ps. ok "[]";
  package_json = λ p. ok "{}";
  frameworks_json = λ fs. ok "[]";
  printf = λ s. s;
  is_zero = λ n. eqb n 0;
}

routes-Keeps_example :
    All
      (λ (r : String × String × Handler (Map String)).
        (c : HttpCall) (w : Writer) → Keeps look (r.2 c w))
      (routes kv_env enc api "mantl-api.host" "now")
routes-Keeps_example = routes-Keeps look kv_env enc api kv_env-Confined "mantl-api.host" "now"

abbrev health_call : HttpCall
health_call = record { name = ""; id = ""; completed = false; body = ok "" }

-- a request is written, a tick takes it out, and the API is asked for its health
abbrev schedule : List Event
schedule = written "mantl-install/apps/spark" ∷ ticked [] ∷ served ∷ []

day : Run kv_env enc api "mantl-api.host" "now" schedule emptied emptied
unfolding put under routes undeleted has_prefix mantl_api.Prelude.Text.trim_prefix
day =
    next (writes "mantl-install/apps/spark" "junk" refl)
      (next (ticks refl tick) (next (serves _ health_call fresh (inl refl)) rest))

Run-served_example : look emptied "mantl-install/apps/spark" ≡ none
Run-served_example =
    Run-served look kv_env enc api "mantl-api.host" "now" kv-Keyed kv_env-Confined kv_puts
      (written "mantl-install/apps/spark" ∷ []) (served ∷ []) [] emptied emptied
      "mantl-install/apps/spark" spark-IsRequest (λ f. absurd f) ((λ e. cc), tt) day
