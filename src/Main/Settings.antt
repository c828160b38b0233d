-- ===== src/Main/Settings.antt =====
-- The settings of main.go: the flags, the configuration file and the secrets of Vault. The packages
-- that keep them are third-party; what is called of them are the parameters below.
pub mod Secrets
use mantl_api.Prelude.{
  String, ◌==◌, Bool, true, false, not, ◌||◌, Option, none, some, List, [], ◌∷◌, if◌then◌else◌,
}
use mantl_api.Prelude.Int.{ℤ, pos}
use mantl_api.Prelude.Outcome.{Result, ok, err, panic}
use mantl_api.Prelude.Exec.{Exec, pure, lift, ◌>>=◌, ◌>>◌, attempt}
use mantl_api.Json.{Fields, get, as_string}
use mantl_api.Http.{UrlParser, parse_url}
use mantl_api.Consul.{Consul}
use mantl_api.Main.{LogLevel, LogFormat, log_level, log_format}

-- viper: the value of a setting, from `Set`, a flag, the environment, the file or a default
pub record Viper (W N : Type 0) : Type 0 where
  pub get_string : W → String → String
  pub get_bool : W → String → Bool
  pub get_int : W → String → ℤ
  pub get_string_map : W → String → Fields N
  pub set : String → String → W → W
  pub set_config_file : String → W → W
  pub read_in_config : Exec W (Unit {0})

-- what the program looks at of a secret; `client_token` is that of `Auth`, if there is one
pub record Secret (N : Type 0) : Type 0 where
  -- `Data`
  pub secrets : Fields N
  pub is_wrapped : Bool
  pub client_token : Option String

-- The client of Vault. `read` has the token and returns no secret for one that is not there.
pub record Vault (W N : Type 0) : Type 0 where
  pub read_environment : Exec W (Unit {0})
  pub new_client : Exec W (Unit {0})
  pub unwrap : String → Exec W (Secret N)
  pub read : String → String → Exec W (Option (Secret N))

-- the operating system
pub record System (W : Type 0) : Type 0 where
  pub expand_env : W → String → String
  pub stat : String → Exec W (Unit {0})

-- a flag's default
pub data Default : Type 0 where
  text : String → Default
  switch : Bool → Default
  number : ℤ → Default

-- the flags that `main` declares
abbrev pub flags : List (String × Default)
flags =
    ("config-file", text "")
    ∷ ("consul-acl-token", text "")
    ∷ ("consul-no-verify-ssl", switch false)
    ∷ ("consul-refresh-interval", number (pos 10))
    ∷ ("consul", text "http://localhost:8500")
    ∷ ("force-sync", switch false)
    ∷ ("listen", text ":4001")
    ∷ ("log-format", text "text")
    ∷ ("log-level", text "info")
    ∷ ("marathon", text "")
    ∷ ("marathon-no-verify-ssl", switch false)
    ∷ ("marathon-password", text "")
    ∷ ("marathon-user", text "")
    ∷ ("mesos", text "")
    ∷ ("mesos-no-verify-ssl", switch false)
    ∷ ("mesos-principal", text "")
    ∷ ("mesos-secret", text "")
    ∷ ("mesos-secret-path", text "/etc/sysconfig/mantl-api")
    ∷ ("vault-cubbyhole-token", text "")
    ∷ ("vault-token", text "")
    ∷ ("zookeeper", text "")
    ∷ []

module _ {W A : Type 0} where
  -- a value that is read off the world
  abbrev pub ask : (W → A) → Exec W A
  ask f w = (ok (f w), w)

  -- a call whose error ends the process, by `log.Fatal`
  abbrev pub fatal : Exec W A → Exec W A
  fatal m = attempt m pure (λ e. lift panic)

abbrev pub change : {W : Type 0} → (W → W) → Exec W (Unit {0})
change f w = (ok tt, f w)

module _ {W N : Type 0} (viper : Viper W N) where
  -- `readConfigFile`: a file that is missing or cannot be read is only warned of.
  unfoldable pub read_config_file : System W → Exec W (Unit {0})
  read_config_file os = ask (λ w. viper.get_string w "config-file") >>= λ configured.
      if configured == ""
      then pure tt
      else ask (λ w. os.expand_env w configured) >>= λ config_file.
          attempt (os.stat config_file)
            (λ _.
              change (viper.set_config_file config_file)
              >> attempt viper.read_in_config (λ _. pure tt) (λ e. pure tt))
            (λ e. pure tt)

  -- `setupLogging`
  unfoldable pub setup_logging : Exec W (LogLevel × LogFormat)
  setup_logging = ask λ w.
      (log_level (viper.get_string w "log-level"), log_format (viper.get_string w "log-format"))

-- the names of the settings that are secrets
abbrev pub secret_names : List String
secret_names = "mesos-principal" ∷ "mesos-secret" ∷ "marathon-user" ∷ "marathon-password" ∷ []

module _ {W N : Type 0} (viper : Viper W N) (vault : Vault W N) where
  -- the client, if there is a token of either kind
  unfoldable pub vault_client : Exec W (Unit {0})
  vault_client =
      ask (λ w.
        not (viper.get_string w "vault-cubbyhole-token" == "")
        || not (viper.get_string w "vault-token" == ""))
      >>= λ wanted.
          if wanted then fatal vault.read_environment >> fatal vault.new_client else pure tt

  -- the token inside a secret that was unwrapped
  unfoldable pub unwrapped : Secret N → Result String
  unwrapped token = if token.is_wrapped then panic else auth token.client_token
    where
      auth : Option String → Result String
      auth none = panic
      auth (some t) = ok t

  unfoldable pub unwrap_token : Exec W (Unit {0})
  unfolding unwrapped
  unwrap_token = ask (λ w. viper.get_string w "vault-cubbyhole-token") >>= λ wrapped.
      if wrapped == ""
      then pure tt
      else fatal (vault.unwrap wrapped) >>= λ token.
          lift (unwrapped token) >>= λ t. change (viper.set "vault-token" t)

  -- `secret.Data`, of a pointer that is nil for a secret that is not there
  unfoldable pub secret_data : Option (Secret N) → Result (Fields N)
  secret_data none = panic
  secret_data (some secret) = ok secret.secrets

  unfoldable pub override : String → Option String → Exec W (Unit {0})
  override name none = pure tt
  override name (some value) = change (viper.set name value)

  -- the loop over the names of the secrets
  unfoldable pub set_secrets : Fields N → List String → Exec W (Unit {0})
  unfolding override
  set_secrets secrets [] = pure tt
  set_secrets secrets (name ∷ names) =
      override name (as_string (get name secrets)) >> set_secrets secrets names

  unfoldable pub read_secrets : Exec W (Unit {0})
  unfolding secret_data
  read_secrets = ask (λ w. viper.get_string w "vault-token") >>= λ token.
      if token == ""
      then pure tt
      else fatal (vault.read token "secret/mantl-api") >>= λ secret.
          lift (secret_data secret) >>= λ secrets. set_secrets secrets secret_names

  -- `initVault`
  unfoldable pub init_vault : Exec W (Unit {0})
  unfolding vault_client unwrap_token read_secrets
  init_vault = vault_client >> (unwrap_token >> read_secrets)

-- What the client of Consul is made with, over the defaults of its package.
pub record ConsulConfig : Type 0 where
  pub scheme : String
  pub address : String
  pub insecure_skip_verify : Bool
  pub token : Option String

module _ {W N : Type 0} (viper : Viper W N) (parse : UrlParser)
    (new_client : ConsulConfig → Exec W (Consul W)) where
  unfoldable pub consul_config : W → String × String × String → ConsulConfig
  consul_config w (scheme, address, path) = record {
    scheme = scheme;
    address = address;
    insecure_skip_verify = viper.get_bool w "consul-no-verify-ssl";
    token =
        if viper.get_string w "consul-acl-token" == ""
        then none
        else some (viper.get_string w "consul-acl-token");
  }

  -- `testConsul`
  unfoldable pub test_consul : Consul W → Exec W (Unit {0})
  test_consul client = client.get "mantl-install" >> pure tt

  -- `consulClient`: the process ends if there is no client or Consul does not answer.
  unfoldable pub consul_client : Exec W (Consul W)
  unfolding consul_config test_consul
  consul_client = fatal (λ w. (parse_url parse (viper.get_string w "consul"), w)) >>= λ url.
      ask (λ w. consul_config w url) >>= λ config.
      fatal (new_client config) >>= λ client. fatal (test_consul client) >> pure client
