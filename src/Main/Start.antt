-- ===== src/Main/Start.antt =====
-- The commands of main.go: `start` puts the clients together, copies the sources and leaves the
-- monitor and the API running.
pub mod Clients
pub mod Wired
use mantl_api.Prelude.{String, Bool, true, false, Option, none, some, List}
use mantl_api.Prelude.Int.{ℤ}
use mantl_api.Prelude.Outcome.{Result}
use mantl_api.Prelude.Exec.{Exec, pure, lift, ◌>>=◌, ◌>>◌}
use mantl_api.Http.{UrlParser}
use mantl_api.Consul.{Consul}
use mantl_api.Marathon.{Marathon, new_marathon}
use mantl_api.Mesos.{Mesos, Files, new_mesos}
use mantl_api.Install.Source.{Host, sync_sources}
use mantl_api.Install.Operations.{Env, Install, new_install}
use mantl_api.Api.{Api}
use mantl_api.Main.{Int64, LogLevel, LogFormat, marathon_url, mesos_url, zk_hosts, sources}
use mantl_api.Main.Settings.{
  Viper, Vault, System, ConsulConfig, ask, fatal, init_vault, consul_client, read_config_file,
  setup_logging,
}

-- What the program calls to start.
pub record Machine (W N : Type 0) : Type 0 where
  pub viper : Viper W N
  pub vault : Vault W N
  pub system : System W
  pub url_parser : UrlParser
  pub new_consul : ConsulConfig → Exec W (Consul W)
  pub files : Files
  pub host : Host W
  pub int64 : Int64 N
  -- the environment, with a client of Consul
  pub env : Consul W → Env W N

-- What `start` leaves running: `Watch` of an installer, every so many seconds, and the API.
pub record Running (W N : Type 0) : Type 0 where
  pub consul : Consul W
  pub refresh_interval : ℤ
  pub listen : String
  pub api : Api N

pub data Command : Type 0 where
  root sync version : Command

-- What a command leaves behind.
pub data Outcome (W N : Type 0) : Type 0 where
  running : Running W N → Outcome W N
  synchronized : Outcome W N
  printed : String → Outcome W N

module _ {W N : Type 0} (m : Machine W N) where
  unfoldable pub open_consul : Exec W (Consul W)
  open_consul = consul_client m.viper m.url_parser m.new_consul

  -- the client of an installer, or a new one
  consul_of : Option (Consul W) → Exec W (Consul W)
  unfolding open_consul
  consul_of none = open_consul
  consul_of (some client) = pure client

  -- `syncRepo`, with the client of the installer that it is given, if it is
  unfoldable pub sync_repo : Option (Consul W) → Bool → Exec W (Unit {0})
  unfolding consul_of
  sync_repo inst force = consul_of inst >>= λ client.
      ask (λ w. m.viper.get_string_map w "sources") >>= λ configured_sources.
      lift (sources m.int64 configured_sources) >>= λ to_sync.
      fatal (sync_sources client m.host to_sync force)

  -- the client of Marathon in `start`
  unfoldable pub start_marathon : Consul W → Exec W Marathon
  start_marathon client = ask (λ w. m.viper.get_string w "marathon") >>= λ configured.
      marathon_url client configured >>= λ url. fatal (λ w. (
        new_marathon m.url_parser url (m.viper.get_string w "marathon-user")
            (m.viper.get_string w "marathon-password")
            (m.viper.get_bool w "marathon-no-verify-ssl"),
        w,
      ))

  -- the client of Mesos in `start`
  unfoldable pub start_mesos : Consul W → Exec W Mesos
  start_mesos client = ask (λ w. m.viper.get_string w "mesos") >>= λ configured.
      mesos_url client configured >>= λ url. fatal (λ w. (
        new_mesos m.files m.url_parser url (m.viper.get_string w "mesos-principal")
            (m.viper.get_string w "mesos-secret-path") (m.viper.get_bool w "mesos-no-verify-ssl"),
        w,
      ))

  -- `start`
  unfoldable pub start : Exec W (Running W N)
  unfolding open_consul
  start = open_consul >>= λ client. init_vault m.viper m.vault >>= λ _.
      start_marathon client >>= λ marathon. start_mesos client >>= λ mesos.
      ask (λ w. m.viper.get_string w "zookeeper") >>= λ zk_urls.
      zk_hosts client zk_urls >>= λ hosts.
      fatal (new_install (m.env client) marathon (some mesos) hosts) >>= λ inst.
      ask (λ w. m.viper.get_bool w "force-sync") >>= λ force. sync_repo (some client) force >>= λ _.
      ask (λ w. record {
        consul = client;
        refresh_interval = m.viper.get_int w "consul-refresh-interval";
        listen = m.viper.get_string w "listen";
        api = record { install = inst; mesos = mesos };
      })

  -- the commands of `main`, behind the hook that runs before each of them
  unfoldable pub run : Command → Exec W (Outcome W N)
  run command = read_config_file m.viper m.system >> (setup_logging m.viper >> body command)
    where
      body : Command → Exec W (Outcome W N)
      body root = start >>= λ r. pure (running r)
      body sync = sync_repo none true >> pure synchronized
      body version = pure (printed "mantl-api v0.2.2\n")
