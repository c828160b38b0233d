-- ===== src/Main/Start/Clients.antt =====
-- The clients that `start` makes: their names and passwords, and the servers of ZooKeeper.
use Prim.Native.Char.{code}
use Prim.Native.String as S
use mantl_api.Prelude.{
  ℕ, String, ◌≡◌, ap, sym, ◌∙◌, ◌≢◌, ◌==◌, Bool, List, [], ◌∷◌, inl, inr, Bool-cases, eqb,
}
use mantl_api.Prelude.Text.{split, prepend}
use mantl_api.Prelude.Outcome.{Result, ok, err, panic, ok-injective}
use mantl_api.Prelude.Outcome as R
use mantl_api.Prelude.Exec.{>>=-eq-ok}
use mantl_api.Prelude.Exec.Keeps.{Keeps, lift-Keeps, >>=-Keeps, if-Keeps, attempt-Keeps}
use mantl_api.Http.{UrlParser, parse_url, HttpClient, new_http_client}
use mantl_api.Consul.{Consul}
use mantl_api.Marathon.{Marathon, new_marathon}
use mantl_api.Mesos.{Mesos, Files, new_mesos, read_secret}
use mantl_api.Main.{discovered_hosts, or_local, marathon_url, mesos_url, zk_hosts}

module _ {W V : Type 0} (view : W → V) (client : Consul W)
    (services : (name tag : String) → Keeps view (client.service name tag)) where
  discovered_hosts-Keeps : (name tag : String) → Keeps view (discovered_hosts client name tag)
  unfolding discovered_hosts
  discovered_hosts-Keeps name tag =
      attempt-Keeps view (services name tag) (λ found. lift-Keeps view _) (λ e. lift-Keeps view _)

  pub marathon_url-Keeps : (configured : String) → Keeps view (marathon_url client configured)
  unfolding marathon_url
  marathon_url-Keeps configured =
      if-Keeps view (configured == "")
        (>>=-Keeps view (discovered_hosts-Keeps "marathon" "") (λ hosts. lift-Keeps view _))
        (lift-Keeps view (ok configured))

  pub mesos_url-Keeps : (configured : String) → Keeps view (mesos_url client configured)
  unfolding mesos_url
  mesos_url-Keeps configured =
      if-Keeps view (configured == "")
        (>>=-Keeps view (discovered_hosts-Keeps "mesos" "leader") (λ hosts. lift-Keeps view _))
        (lift-Keeps view (ok configured))

split-ne-nil : (s : String) (sep : ℕ) → split s sep ≢ []
unfolding split prepend
split-ne-nil S.[] sep h = cc
split-ne-nil (S.◌∷◌ c s) sep h = elim (Bool-cases (eqb (code c) sep)) [
  | inl e ↦ cc (rw e at h)
  | inr e ↦ prepend_ne (split s sep) (rw e at h)
]
  where
    prepend_ne : (ws : List String) → prepend c ws ≡ [] → ⊥
    prepend_ne [] h = cc
    prepend_ne (w ∷ ws) h = cc

or_local-ne-nil : {W : Type 0} (client : Consul W) (hs : List String) → or_local client hs ≢ []
unfolding or_local
or_local-ne-nil client [] h = cc
or_local-ne-nil client (x ∷ xs) h = cc

pub zk_hosts-ne-nil :
    {W : Type 0} (client : Consul W) (configured : String) (w w' : W) (hs : List String)
    → zk_hosts client configured w ≡ (ok hs, w')
    → hs ≢ []
unfolding zk_hosts
zk_hosts-ne-nil client configured w w' hs h n = elim (Bool-cases (configured == "")) [
  | inl e ↦
      let (found, w1, p, q) = >>=-eq-ok _ (discovered_hosts client "zookeeper" "") w (rw e at h) in
      or_local-ne-nil client found (ok-injective (ap (λ z. z.0) q) ∙ n)
  | inr e ↦ split-ne-nil configured b',' (ok-injective (ap (λ z. z.0) (rw e at h)) ∙ n)
]

-- A client has the name and the password that it is made with.
new_http_client-ok :
    (parse : UrlParser) (u user pw : String) (b : Bool) (c : HttpClient)
    → new_http_client parse u user pw b ≡ ok c
    → (c.username ≡ user) × (c.password ≡ pw)
unfolding new_http_client
new_http_client-ok parse u user pw b c h =
    let (parts, p, q) = R.>>=-eq-ok (parse_url parse u) _ h in
    (
      ap (λ (x : HttpClient). x.username) (sym (ok-injective q)),
      ap (λ (x : HttpClient). x.password) (sym (ok-injective q)),
    )

pub new_marathon-ok :
    (parse : UrlParser) (u user pw : String) (b : Bool) (m : Marathon)
    → new_marathon parse u user pw b ≡ ok m
    → (m.http_client.username ≡ user) × (m.http_client.password ≡ pw)
unfolding new_marathon
new_marathon-ok parse u user pw b m h =
    let (c, p, q) = R.>>=-eq-ok (new_http_client parse u user pw b) _ h in
    let (x, y) = new_http_client-ok parse u user pw b c p in
    (
      ap (λ (x : Marathon). x.http_client.username) (sym (ok-injective q)) ∙ x,
      ap (λ (x : Marathon). x.http_client.password) (sym (ok-injective q)) ∙ y,
    )

pub new_mesos-ok :
    (fs : Files) (parse : UrlParser) (u principal path : String) (b : Bool) (m : Mesos)
    → new_mesos fs parse u principal path b ≡ ok m
    → m.principal ≡ principal
unfolding new_mesos
new_mesos-ok fs parse u principal path b m h =
    let (secret, p, q) = R.>>=-eq-ok (read_secret fs path) _ h in
    let (c, r, t) = R.>>=-eq-ok (new_http_client parse u principal secret b) _ q in
    ap (λ (x : Mesos). x.principal) (sym (ok-injective t))
