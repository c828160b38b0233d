-- ===== src/Marathon/AppJson.antt =====
-- How the structs of marathon/marathon.go are written and read as JSON, by the tags of their fields.
pub mod RoundTrip
use mantl_api.Prelude.{String, Bool, true, false, Option, none, some, List, [], ◌∷◌}
use mantl_api.Prelude.Int.{ℤ, pos}
use mantl_api.Prelude.Outcome.{Result, ok, err, panic, ◌>>=◌}
use mantl_api.Json.{Value, null, Codec, obj, arr, str, num, Items, Fields, to_string, to_strings}
use mantl_api.Json.Struct.{Numbers, items_of, into, to_list, to_int}
use mantl_api.Json.Tagged.{
  Tag, assign_by, encode_by, text_tag, flag_tag, list_tag, map_tag, pointer_tag, struct_tag,
  int_tag, float_tag,
}
use mantl_api.Marathon.{
  PortMapping, Parameter, Docker, Volume, Container, HealthCheckCommand, HealthCheck,
  UpgradeStrategy, App, AppCodec, empty_app,
}

-- the zero values
abbrev pub no_port_mapping : PortMapping
no_port_mapping = record {
  container_port = pos 0;
  host_port = pos 0;
  service_port = pos 0;
  protocol = "";
}

abbrev pub no_parameter : Parameter
no_parameter = record { key = ""; value = "" }

abbrev pub no_docker : Docker
no_docker = record {
  image = "";
  parameters = [];
  privileged = false;
  network = "";
  port_mappings = [];
  force_pull_image = false;
}

abbrev pub no_volume : Volume
no_volume = record { container_path = ""; host_path = ""; mode = "" }

abbrev pub no_container : Container
no_container = record { docker = none; type = ""; volumes = [] }

abbrev pub no_command : HealthCheckCommand
no_command = record { value = "" }

abbrev pub no_health_check : HealthCheck
no_health_check = record {
  path = "";
  port_index = pos 0;
  protocol = "";
  grace_period_seconds = pos 0;
  interval_seconds = pos 0;
  timeout_seconds = pos 0;
  max_consecutive_failures = pos 0;
  command = none;
}

module _ {N S T : Type 0} where
  -- a list of structs, with the tags and the zero value of one
  abbrev pub structs : List (Tag N S) → S → String → (T → List S) → (List S → T → T) → Tag N T
  structs tags new = list_tag (λ s. obj (encode_by tags s)) (into (assign_by tags) new)

module _ {N S : Type 0} where
  -- a list of texts
  abbrev pub texts_tag : String → (S → List String) → (List String → S → S) → Tag N S
  texts_tag = list_tag str (to_string "")

module _ {N : Type 0} where
  unfoldable pub parameter_tags : List (Tag N Parameter)
  parameter_tags =
      text_tag "key" (λ s. s.key) (λ x s. record s { key = x })
      ∷ text_tag "value" (λ s. s.value) (λ x s. record s { value = x })
      ∷ []

  unfoldable pub volume_tags : List (Tag N Volume)
  volume_tags =
      text_tag "containerPath" (λ s. s.container_path) (λ x s. record s { container_path = x })
      ∷ text_tag "hostPath" (λ s. s.host_path) (λ x s. record s { host_path = x })
      ∷ text_tag "mode" (λ s. s.mode) (λ x s. record s { mode = x })
      ∷ []

  unfoldable pub command_tags : List (Tag N HealthCheckCommand)
  command_tags = text_tag "value" (λ s. s.value) (λ x s. record s { value = x }) ∷ []

module _ {N : Type 0} (n : Numbers N) where
  unfoldable pub port_mapping_tags : List (Tag N PortMapping)
  port_mapping_tags =
      int_tag n "containerPort" (λ s. s.container_port) (λ x s. record s { container_port = x })
      ∷ int_tag n "hostPort" (λ s. s.host_port) (λ x s. record s { host_port = x })
      ∷ int_tag n "servicePort" (λ s. s.service_port) (λ x s. record s { service_port = x })
      ∷ text_tag "protocol" (λ s. s.protocol) (λ x s. record s { protocol = x })
      ∷ []

  unfoldable pub docker_tags : List (Tag N Docker)
  docker_tags =
      text_tag "image" (λ s. s.image) (λ x s. record s { image = x })
      ∷ structs parameter_tags no_parameter "parameters" (λ s. s.parameters)
          (λ x s. record s { parameters = x })
      ∷ flag_tag "privileged" (λ s. s.privileged) (λ x s. record s { privileged = x })
      ∷ text_tag "network" (λ s. s.network) (λ x s. record s { network = x })
      ∷ structs port_mapping_tags no_port_mapping "portMappings" (λ s. s.port_mappings)
          (λ x s. record s { port_mappings = x })
      ∷ flag_tag "forcePullImage" (λ s. s.force_pull_image)
          (λ x s. record s { force_pull_image = x })
      ∷ []

  unfoldable pub container_tags : List (Tag N Container)
  container_tags =
      pointer_tag docker_tags no_docker "docker" (λ s. s.docker) (λ x s. record s { docker = x })
      ∷ text_tag "type" (λ s. s.type) (λ x s. record s { type = x })
      ∷ structs volume_tags no_volume "volumes" (λ s. s.volumes) (λ x s. record s { volumes = x })
      ∷ []

  unfoldable pub health_check_tags : List (Tag N HealthCheck)
  health_check_tags =
      text_tag "path" (λ s. s.path) (λ x s. record s { path = x })
      ∷ int_tag n "portIndex" (λ s. s.port_index) (λ x s. record s { port_index = x })
      ∷ text_tag "protocol" (λ s. s.protocol) (λ x s. record s { protocol = x })
      ∷ int_tag n "gracePeriodSeconds" (λ s. s.grace_period_seconds)
          (λ x s. record s { grace_period_seconds = x })
      ∷ int_tag n "intervalSeconds" (λ s. s.interval_seconds)
          (λ x s. record s { interval_seconds = x })
      ∷ int_tag n "timeoutSeconds" (λ s. s.timeout_seconds)
          (λ x s. record s { timeout_seconds = x })
      ∷ int_tag n "maxConsecutiveFailures" (λ s. s.max_consecutive_failures)
          (λ x s. record s { max_consecutive_failures = x })
      ∷ pointer_tag command_tags no_command "command" (λ s. s.command)
          (λ x s. record s { command = x })
      ∷ []

  unfoldable pub upgrade_tags : List (Tag N (UpgradeStrategy N))
  upgrade_tags =
      float_tag n "minimumHealthCapacity" (λ s. s.minimum_health_capacity)
        (λ x s. record s { minimum_health_capacity = x })
      ∷ float_tag n "maximumOverCapacity" (λ s. s.maximum_over_capacity)
          (λ x s. record s { maximum_over_capacity = x })
      ∷ []

  unfoldable pub app_tags : List (Tag N (App N))
  app_tags =
      texts_tag "args" (λ s. s.args) (λ x s. record s { args = x })
      ∷ float_tag n "backoffFactor" (λ s. s.backoff_factor) (λ x s. record s { backoff_factor = x })
      ∷ int_tag n "backoffSeconds" (λ s. s.backoff_seconds)
          (λ x s. record s { backoff_seconds = x })
      ∷ text_tag "cmd" (λ s. s.cmd) (λ x s. record s { cmd = x })
      ∷ list_tag (λ ws. arr (items_of str ws)) (to_list (to_string "")) "constraints"
          (λ s. s.constraints) (λ x s. record s { constraints = x })
      ∷ pointer_tag container_tags no_container "container" (λ s. s.container)
          (λ x s. record s { container = x })
      ∷ float_tag n "cpus" (λ s. s.cpus) (λ x s. record s { cpus = x })
      ∷ texts_tag "dependencies" (λ s. s.dependencies) (λ x s. record s { dependencies = x })
      ∷ float_tag n "disk" (λ s. s.disk) (λ x s. record s { disk = x })
      ∷ map_tag "env" (λ s. s.env) (λ x s. record s { env = x })
      ∷ text_tag "executor" (λ s. s.executor) (λ x s. record s { executor = x })
      ∷ map_tag "labels" (λ s. s.labels) (λ x s. record s { labels = x })
      ∷ structs health_check_tags no_health_check "healthChecks" (λ s. s.health_checks)
          (λ x s. record s { health_checks = x })
      ∷ text_tag "id" (λ s. s.id) (λ x s. record s { id = x })
      ∷ int_tag n "instances" (λ s. s.instances) (λ x s. record s { instances = x })
      ∷ float_tag n "mem" (λ s. s.mem) (λ x s. record s { mem = x })
      ∷ list_tag (λ i. num (n.of_int i)) (to_int n (pos 0)) "ports" (λ s. s.ports)
          (λ x s. record s { ports = x })
      ∷ flag_tag "requirePorts" (λ s. s.require_ports) (λ x s. record s { require_ports = x })
      ∷ texts_tag "storeUrls" (λ s. s.store_urls) (λ x s. record s { store_urls = x })
      ∷ struct_tag upgrade_tags "upgradeStrategy" (λ s. s.upgrade_strategy)
          (λ x s. record s { upgrade_strategy = x })
      ∷ texts_tag "uris" (λ s. s.uris) (λ x s. record s { uris = x })
      ∷ text_tag "user" (λ s. s.user) (λ x s. record s { user = x })
      ∷ text_tag "version" (λ s. s.version) (λ x s. record s { version = x })
      ∷ []

  -- `json.Marshal` of an `App`, and `json.Unmarshal` into a new one
  unfoldable pub app_value : App N → Value N
  app_value a = obj (encode_by app_tags a)

  unfoldable pub app_from : Value N → Result (App N)
  app_from = into (assign_by app_tags) (empty_app n.nought)

  -- an element of a `[]*App`; a nil pointer panics where the application is looked at
  app_element : Value N → Result (App N)
  app_element null = panic
  app_element v = app_from v

  -- `AppResponse`
  response_tags : List (Tag N (List (App N)))
  unfolding app_element
  response_tags = list_tag app_value app_element "apps" (λ s. s) (λ x s. x) ∷ []

  -- `json.Unmarshal` into a new `AppResponse`, and the applications of it
  unfoldable pub apps_from : Value N → Result (List (App N))
  unfolding response_tags
  apps_from = into (assign_by response_tags) []

  -- The encoding of `App` over a reader and a printer of JSON texts.
  unfoldable pub app_codec : Codec N → (Value N → Result String) → AppCodec N
  app_codec c print = record {
    app_of = λ text. (do v ← c.parse text; app_from v);
    apps_of = λ text. (do v ← c.parse text; apps_from v);
    json_of = λ a. print (app_value a);
  }
