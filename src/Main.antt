-- ===== src/Main.antt =====
-- main.go and discover.go: the addresses the program uses, the sources it synchronizes, and its
-- logging. Flags and configuration files are the matter of third-party packages; their values are
-- arguments here.
pub mod Laws
pub mod Settings
pub mod Start
pub mod Runs
use Prim.Native.String.{◌++◌}
use mantl_api.Prelude.{
  ℕ, String, ◌==◌, Bool, true, false, Option, none, some, List, [], ◌∷◌, map, if◌then◌else◌,
}
use mantl_api.Prelude.Int.{ℤ, pos, show_nat}
use mantl_api.Prelude.Text.{split, equal_fold}
use mantl_api.Prelude.Outcome.{Result, ok, err, panic, ◌>>=◌}
use mantl_api.Prelude.Exec.{Exec, pure, attempt}
use mantl_api.Prelude.Exec as X
use mantl_api.Json.{Value, num, str, obj, Fields, end, field, get, as_string}
use mantl_api.Consul.{Service, Consul}
use mantl_api.Install.Source.{Source, file_system, git, is_valid}

-- `location := fmt.Sprintf("%s:%d", host, port)`
unfoldable pub location : Service → String
location s = s.node ++ ":" ++ show_nat s.service_port

module _ {W : Type 0} (consul : Consul W) where
  -- `NewDiscovery(client, name, tag).discoveredHosts`, by `discover`: none after an error
  unfoldable pub discovered_hosts : String → String → Exec W (List String)
  discovered_hosts name tag =
      attempt (consul.service name tag) (λ services. pure (map location services)) (λ e. pure [])

  unfoldable pub first_or : String → List String → String
  first_or default [] = default
  first_or default (host ∷ hosts) = "http://" ++ host

  -- The address of Marathon in `start`: the configured one, a discovered one, or a default.
  unfoldable pub marathon_url : String → Exec W String
  unfolding first_or
  marathon_url configured =
      if configured == ""
      then X.◌>>=◌ (discovered_hosts "marathon" "")
          (λ hosts. pure (first_or "http://localhost:8080" hosts))
      else pure configured

  -- The address of Mesos in `start`; the default is spelled as in the source.
  unfoldable pub mesos_url : String → Exec W String
  unfolding first_or
  mesos_url configured =
      if configured == ""
      then X.◌>>=◌ (discovered_hosts "mesos" "leader")
          (λ hosts. pure (first_or "http://locahost:5050" hosts))
      else pure configured

  unfoldable pub or_local : List String → List String
  or_local [] = "locahost:2181" ∷ []
  or_local (host ∷ hosts) = host ∷ hosts

  -- The ZooKeeper servers in `start`.
  unfoldable pub zk_hosts : String → Exec W (List String)
  unfolding or_local
  zk_hosts configured =
      if configured == ""
      then X.◌>>=◌ (discovered_hosts "zookeeper" "") (λ hosts. pure (or_local hosts))
      else pure (split configured b',')

abbrev pub default_sources : List Source
default_sources =
    record {
      name = "mantl";
      path = "https://github.com/CiscoCloud/mantl-universe.git";
      source_type = git;
      branch = "version-0.7";
      index = pos 0;
    }
    ∷ []

-- `int64` in a configuration file: the values of the decoder that hold one
abbrev pub Int64 : Type 0 → Type 0
Int64 N = N → Option ℤ

module _ {N : Type 0} (int64 : Int64 N) where
  text_or_empty : Option String → String
  text_or_empty none = ""
  text_or_empty (some s) = s

  index_of : Option ℤ → ℤ
  index_of none = pos 0
  index_of (some i) = i

  as_int64 : Option (Value N) → Option ℤ
  as_int64 (some (num n)) = int64 n
  as_int64 _ = none

  type_of : Option String → ℕ
  type_of none = file_system
  type_of (some t) = if equal_fold t "git" then git else file_system

  -- one source of the configuration
  unfoldable pub source_of : String → Fields N → Source
  unfolding text_or_empty index_of as_int64 type_of
  source_of name config = record {
    name = name;
    path = text_or_empty (as_string (get "path" config));
    source_type = type_of (as_string (get "type" config));
    branch = text_or_empty (as_string (get "branch" config));
    index = index_of (as_int64 (get "index" config));
  }

  -- `val.(map[string]interface{})`
  must_map : Value N → Result (Fields N)
  must_map (obj m) = ok m
  must_map _ = panic

  -- the loop over the configured sources, in one order of the map
  unfoldable pub configured : Fields N → Result (List Source)
  unfolding must_map
  configured end = ok []
  configured (field name val more) = do
    config ← must_map val
    rest ← configured more
    ok (if is_valid (source_of name config) then source_of name config ∷ rest else rest)

  or_default : List Source → List Source
  or_default [] = default_sources
  or_default (s ∷ ss) = s ∷ ss

  -- the sources that `syncRepo` synchronizes
  unfoldable pub sources : Fields N → Result (List Source)
  unfolding or_default
  sources config = do ss ← configured config; ok (or_default ss)

pub data LogLevel : Type 0 where
  debug info warn error fatal : LogLevel

pub data LogFormat : Type 0 where
  text json : LogFormat

-- `setupLogging`: an unknown level is `info`, an unknown format is `text`.
unfoldable pub log_level : String → LogLevel
log_level s =
    if s == "debug"
    then debug
    else if s == "info"
    then info
    else if s == "warn"
    then warn
    else if s == "error"
    then error
    else if s == "fatal"
    then fatal
    else info

unfoldable pub log_format : String → LogFormat
log_format s = if s == "text" then text else if s == "json" then json else text
