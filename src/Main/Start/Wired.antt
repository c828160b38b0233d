-- ===== src/Main/Start/Wired.antt =====
-- What the parts that `start` leaves running hold.
use mantl_api.Prelude.{String, ◌≡◌, ◌≢◌, some, [], ◌⊎◌}
use mantl_api.Prelude.Outcome.{ok}
use mantl_api.Prelude.Exec.Keeps.{Keeps}
use mantl_api.Consul.{Consul}
use mantl_api.Marathon.{Marathon}
use mantl_api.Mesos.{Mesos}
use mantl_api.Install.Operations.{Install}
use mantl_api.Main.Settings.{Secret, ConsulConfig, secret_names}
use mantl_api.Main.Settings.Secrets.{Sets, KeepsSettings, IsRead, with_secrets}
use mantl_api.Main.Start.{Machine, Running}

-- Neither making a client of Consul nor what `start` calls of it changes a setting.
pub record KeepsConsul {W N : Type 0} (m : Machine W N) : Type 0 where
  pub creates : (config : ConsulConfig) → Keeps m.viper.get_string (m.new_consul config)
  pub gets :
      (config : ConsulConfig) (client : Consul W) (w w' : W)
      → m.new_consul config w ≡ (ok client, w')
      → (key : String) → Keeps m.viper.get_string (client.get key)
  pub services :
      (config : ConsulConfig) (client : Consul W) (w w' : W)
      → m.new_consul config w ≡ (ok client, w')
      → (name tag : String) → Keeps m.viper.get_string (client.service name tag)

module _ {W N : Type 0} (m : Machine W N) (faithful : Sets m.viper)
    (keeps : KeepsSettings m.viper m.vault) (consul : KeepsConsul m) where
  abbrev settings : W → String → String
  settings = m.viper.get_string

  -- a setting as the secrets of Vault leave it
  abbrev pub FromVault : (String → String) → (String → String) → Type 0
  FromVault before after =
      ((after "vault-token" ≡ "") × ((j : String) → j ≢ "vault-token" → after j ≡ before j))
      ⊎ ((s : Secret N) × (token : String) × IsRead m.viper m.vault faithful keeps token s
          × ((j : String)
              → j ≢ "vault-token"
              → after j ≡ with_secrets s.secrets secret_names j (before j)))

  -- The parts that `start` leaves running, for the settings as Vault leaves them.
  pub record Wired (after : String → String) (r : Running W N) : Type 0 where
    pub shared : r.api.install.mesos ≡ some r.api.mesos
    pub servers : r.api.install.zk_servers ≢ []
    pub user : r.api.install.marathon.http_client.username ≡ after "marathon-user"
    pub password : r.api.install.marathon.http_client.password ≡ after "marathon-password"
    pub principal : r.api.mesos.principal ≡ after "mesos-principal"
