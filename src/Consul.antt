-- ===== src/Consul.antt =====
-- What the program calls of the Consul client, a third-party package: the key-value store and the
-- catalog of services.
use mantl_api.Prelude.{ℕ, String, Option, List}
use mantl_api.Prelude.Exec.{Exec}

pub record Service : Type 0 where
  pub node : String
  pub service_port : ℕ

pub record Consul (W : Type 0) : Type 0 where
  -- `kv.Get`: the value of a key, or no pair
  pub get : String → Exec W (Option String)
  -- `kv.Keys`: the keys under a prefix, up to a separator
  pub keys : String → String → Exec W (List String)
  -- `kv.Put` and `kv.Delete`
  pub put : String → String → Exec W (Unit {0})
  pub delete : String → Exec W (Unit {0})
  -- `kv.List`: the pairs under a prefix
  pub list : String → Exec W (List (String × String))
  -- `Catalog().Service`, by name and tag
  pub service : String → String → Exec W (List Service)
