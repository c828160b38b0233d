-- ===== src/Marathon/AppJson/RoundTrip.antt =====
-- An application is read back as it is written: no field is lost under its tag.
use mantl_api.Prelude.{String, ◌≡◌, refl, true, false, some, List, [], ◌∷◌, ◌≤◌, ◌<◌}
use mantl_api.Prelude.Lists.{All}
use mantl_api.Prelude.Int.{ℤ, pos, negsuc}
use mantl_api.Prelude.Dict.{Map, Unique}
use mantl_api.Prelude.Text.{equal_fold}
use mantl_api.Prelude.Outcome.{ok}
use mantl_api.Json.{num, str, arr, to_string, to_struct}
use mantl_api.Json.Struct.{Numbers, is_nil, items_of, to_list, to_int, into}
use mantl_api.Json.Tagged.{
  Tag, assign_by, encode_by, text_tag, flag_tag, list_tag, map_tag, pointer_tag, struct_tag,
  int_tag, float_tag,
}
use mantl_api.Json.Tagged.RoundTrip.{to_struct-encode_by}
use mantl_api.Json.Tagged.Kinds.{
  text_tag-Reads, flag_tag-Reads, list_tag-Reads, int_tag-Reads, float_tag-Reads,
  each_item-items_of, pointer_tag-Reads, struct_tag-Reads, map_tag-Reads,
}
use mantl_api.Marathon.{
  PortMapping, Parameter, Docker, Volume, Container, HealthCheckCommand, HealthCheck,
  UpgradeStrategy, App, empty_app,
}
use mantl_api.Marathon.AppJson.{
  no_port_mapping, no_parameter, no_docker, no_volume, no_container, no_command, no_health_check,
  parameter_tags, volume_tags, command_tags, port_mapping_tags, docker_tags, container_tags,
  health_check_tags, upgrade_tags, app_tags, app_value, app_from,
}

-- Decoding what a struct is written as gives the struct.
abbrev Restores : {N S : Type 0} → List (Tag N S) → S → S → Type 0
Restores tags new a = to_struct (assign_by tags) (encode_by tags a) new ≡ ok a

-- The integers that every `float64` arithmetic holds exactly: up to 2 ^ 53 in size.
abbrev pub IsSafe : ℤ → Type 0
IsSafe (pos m) = m ≤ 9007199254740992
IsSafe (negsuc m) = m < 9007199254740992

-- Such an integer is read from the number that it is written as.
pub record Exact {N : Type 0} (n : Numbers N) : Type 0 where
  pub ints : (i : ℤ) → IsSafe i → n.to_int (n.of_int i) ≡ ok i

-- A number that is left out is the zero that a new struct has, and not the negative zero.
abbrev pub IsOneZero : {N : Type 0} → Numbers N → N → Type 0
IsOneZero n x = n.is_zero x ≡ true → x ≡ n.nought

pub record SafePorts (a : PortMapping) : Type 0 where
  pub container_port : IsSafe a.container_port
  pub host_port : IsSafe a.host_port
  pub service_port : IsSafe a.service_port

abbrev pub SafeDocker : Docker → Type 0
SafeDocker a = All SafePorts a.port_mappings

abbrev pub SafeContainer : Container → Type 0
SafeContainer a = (t : Docker) → a.docker ≡ some t → SafeDocker t

pub record SafeCheck (a : HealthCheck) : Type 0 where
  pub port_index : IsSafe a.port_index
  pub grace_period_seconds : IsSafe a.grace_period_seconds
  pub interval_seconds : IsSafe a.interval_seconds
  pub timeout_seconds : IsSafe a.timeout_seconds
  pub max_consecutive_failures : IsSafe a.max_consecutive_failures

-- The numbers of an application are such.
pub record HasNumbers {N : Type 0} (n : Numbers N) (a : App N) : Type 0 where
  pub instances : IsSafe a.instances
  pub backoff_seconds : IsSafe a.backoff_seconds
  pub ports : All IsSafe a.ports
  pub container : (t : Container) → a.container ≡ some t → SafeContainer t
  pub health_checks : All SafeCheck a.health_checks
  pub cpus : IsOneZero n a.cpus
  pub disk : IsOneZero n a.disk
  pub mem : IsOneZero n a.mem
  pub backoff_factor : IsOneZero n a.backoff_factor
  pub minimum : IsOneZero n a.upgrade_strategy.minimum_health_capacity
  pub maximum : IsOneZero n a.upgrade_strategy.maximum_over_capacity

everywhere : {A : Type 0} {P : A → Type 0} → ((x : A) → P x) → (xs : List A) → All P xs
everywhere f [] = tt
everywhere f (x ∷ xs) = (f x, everywhere f xs)

each : {A : Type 0} {P Q : A → Type 0} → ((x : A) → P x → Q x) → (xs : List A) → All P xs → All Q xs
each f [] h = tt
each f (x ∷ xs) h = (f x h.0, each f xs h.1)

-- The maps of an application are nil or have a key, and bind no key twice.
pub record HasMaps {N : Type 0} (a : App N) : Type 0 where
  pub env : (m : Map String) → a.env ≡ some m → (is_nil m ≡ false) × Unique m
  pub labels : (m : Map String) → a.labels ≡ some m → (is_nil m ≡ false) × Unique m

module _ (N : Type 0) where
  parameter-Restores : (a : Parameter) → Restores (parameter_tags {N = N}) no_parameter a
  unfolding parameter_tags assign_by equal_fold text_tag
  parameter-Restores a = to_struct-encode_by parameter_tags parameter_tags a no_parameter a (
    text_tag-Reads _ _ _ _ _ _ (λ v. refl) refl,
    (text_tag-Reads _ _ _ _ _ _ (λ v. refl) refl, refl),
  )

  volume-Restores : (a : Volume) → Restores (volume_tags {N = N}) no_volume a
  unfolding volume_tags assign_by equal_fold text_tag
  volume-Restores a = to_struct-encode_by volume_tags volume_tags a no_volume a (
    text_tag-Reads _ _ _ _ _ _ (λ v. refl) refl,
    (
      text_tag-Reads _ _ _ _ _ _ (λ v. refl) refl,
      (text_tag-Reads _ _ _ _ _ _ (λ v. refl) refl, refl),
    ),
  )

  command-Restores : (a : HealthCheckCommand) → Restores (command_tags {N = N}) no_command a
  unfolding command_tags assign_by equal_fold text_tag
  command-Restores a =
      to_struct-encode_by command_tags command_tags a no_command a
        (text_tag-Reads _ _ _ _ _ _ (λ v. refl) refl, refl)

module _ {N : Type 0} (n : Numbers N) (e : Exact n) where
  port_mapping-Restores :
      (a : PortMapping) → SafePorts a → Restores (port_mapping_tags n) no_port_mapping a
  unfolding port_mapping_tags assign_by equal_fold text_tag int_tag
  port_mapping-Restores a h =
      to_struct-encode_by (port_mapping_tags n) (port_mapping_tags n) a no_port_mapping a (
        int_tag-Reads _ _ _ _ n _ _ (e.ints _ h.container_port) (λ v. refl) refl,
        (
          int_tag-Reads _ _ _ _ n _ _ (e.ints _ h.host_port) (λ v. refl) refl,
          (
            int_tag-Reads _ _ _ _ n _ _ (e.ints _ h.service_port) (λ v. refl) refl,
            (text_tag-Reads _ _ _ _ _ _ (λ v. refl) refl, refl),
          ),
        ),
      )

  docker-Restores : (a : Docker) → SafeDocker a → Restores (docker_tags n) no_docker a
  unfolding docker_tags assign_by equal_fold text_tag flag_tag list_tag into
  docker-Restores a h = to_struct-encode_by (docker_tags n) (docker_tags n) a no_docker a (
    text_tag-Reads _ _ _ _ _ _ (λ v. refl) refl,
    (
      list_tag-Reads _ _ _ _ _ _ _ _ (everywhere (parameter-Restores N) a.parameters) (λ v. refl)
          refl,
      (
        flag_tag-Reads _ _ _ _ _ _ (λ v. refl) refl,
        (
          text_tag-Reads _ _ _ _ _ _ (λ v. refl) refl,
          (
            list_tag-Reads _ _ _ _ _ _ _ _ (each port_mapping-Restores a.port_mappings h)
                (λ v. refl) refl,
            (flag_tag-Reads _ _ _ _ _ _ (λ v. refl) refl, refl),
          ),
        ),
      ),
    ),
  )

  container-Restores :
      (a : Container) → SafeContainer a → Restores (container_tags n) no_container a
  unfolding container_tags assign_by equal_fold text_tag list_tag pointer_tag into
  container-Restores a h =
      to_struct-encode_by (container_tags n) (container_tags n) a no_container a (
        pointer_tag-Reads _ _ _ _ _ _ _ _ (λ t e. docker-Restores t (h t e)) refl (λ v. refl) refl,
        (
          text_tag-Reads _ _ _ _ _ _ (λ v. refl) refl,
          (
            list_tag-Reads _ _ _ _ _ _ _ _ (everywhere (volume-Restores N) a.volumes) (λ v. refl)
                refl,
            refl,
          ),
        ),
      )

  health_check-Restores :
      (a : HealthCheck) → SafeCheck a → Restores (health_check_tags n) no_health_check a
  unfolding health_check_tags assign_by equal_fold text_tag int_tag pointer_tag
  health_check-Restores a h =
      to_struct-encode_by (health_check_tags n) (health_check_tags n) a no_health_check a (
        text_tag-Reads _ _ _ _ _ _ (λ v. refl) refl,
        (
          int_tag-Reads _ _ _ _ n _ _ (e.ints _ h.port_index) (λ v. refl) refl,
          (
            text_tag-Reads _ _ _ _ _ _ (λ v. refl) refl,
            (
              int_tag-Reads _ _ _ _ n _ _ (e.ints _ h.grace_period_seconds) (λ v. refl) refl,
              (
                int_tag-Reads _ _ _ _ n _ _ (e.ints _ h.interval_seconds) (λ v. refl) refl,
                (
                  int_tag-Reads _ _ _ _ n _ _ (e.ints _ h.timeout_seconds) (λ v. refl) refl,
                  (
                    int_tag-Reads _ _ _ _ n _ _ (e.ints _ h.max_consecutive_failures) (λ v. refl)
                        refl,
                    (
                      pointer_tag-Reads _ _ _ _ _ _ _ _ (λ t _. command-Restores N t) refl
                          (λ v. refl) refl,
                      refl,
                    ),
                  ),
                ),
              ),
            ),
          ),
        ),
      )

  upgrade-Restores :
      (a : UpgradeStrategy N)
      → IsOneZero n a.minimum_health_capacity
      → IsOneZero n a.maximum_over_capacity
      → Restores
          (upgrade_tags n)
          (record { minimum_health_capacity = n.nought; maximum_over_capacity = n.nought })
          a
  unfolding upgrade_tags assign_by equal_fold float_tag
  upgrade-Restores a p q = to_struct-encode_by (upgrade_tags n) (upgrade_tags n) a _ a (
    float_tag-Reads _ _ _ _ n _ _ p (λ v. refl) refl,
    (float_tag-Reads _ _ _ _ n _ _ q (λ v. refl) refl, refl),
  )

  text-Restores : (x : String) → to_string {N = N} "" (str x) ≡ ok x
  unfolding to_string
  text-Restores x = refl

  texts-Restores :
      (xs : List String) → to_list (to_string {N = N} "") (arr (items_of str xs)) ≡ ok xs
  unfolding to_list
  texts-Restores xs = each_item-items_of str (to_string "") xs (everywhere text-Restores xs)

  int-Restores : (i : ℤ) → IsSafe i → to_int n (pos 0) (num (n.of_int i)) ≡ ok i
  unfolding to_int
  int-Restores i h = e.ints i h

  -- An application that is written by `json.Marshal` and read into a new one by `json.Unmarshal` comes
  -- back as it was, every field and every list, map and struct in it, if its maps have no empty map in
  -- place of nil and bind no key twice, its integers are at most 2 ^ 53 in size and no number of it is
  -- a negative zero. It is required of the numbers of documents that they hold such integers exactly.
  pub app_from-app_value :
      (a : App N) → HasMaps a → HasNumbers n a → app_from n (app_value n a) ≡ ok a
  unfolding app_from app_value into app_tags assign_by equal_fold text_tag flag_tag list_tag map_tag
      pointer_tag struct_tag int_tag float_tag
  app_from-app_value a h k =
      to_struct-encode_by (app_tags n) (app_tags n) a (empty_app n.nought) a (
        list_tag-Reads _ _ _ _ _ _ _ _ (everywhere text-Restores a.args) (λ v. refl) refl,
        (
          float_tag-Reads _ _ _ _ n _ _ k.backoff_factor (λ v. refl) refl,
          (
            int_tag-Reads _ _ _ _ n _ _ (e.ints _ k.backoff_seconds) (λ v. refl) refl,
            (
              text_tag-Reads _ _ _ _ _ _ (λ v. refl) refl,
              (
                list_tag-Reads _ _ _ _ _ _ _ _ (everywhere texts-Restores a.constraints) (λ v. refl)
                    refl,
                (
                  pointer_tag-Reads _ _ _ _ _ _ _ _ (λ t p. container-Restores t (k.container t p))
                      refl (λ v. refl) refl,
                  (
                    float_tag-Reads _ _ _ _ n _ _ k.cpus (λ v. refl) refl,
                    (
                      list_tag-Reads _ _ _ _ _ _ _ _ (everywhere text-Restores a.dependencies)
                          (λ v. refl) refl,
                      (
                        float_tag-Reads _ _ _ _ n _ _ k.disk (λ v. refl) refl,
                        (
                          map_tag-Reads _ _ _ _ _ _ h.env refl (λ v. refl) refl,
                          (
                            text_tag-Reads _ _ _ _ _ _ (λ v. refl) refl,
                            (
                              map_tag-Reads _ _ _ _ _ _ h.labels refl (λ v. refl) refl,
                              (
                                list_tag-Reads _ _ _ _ _ _ _ _
                                    (each health_check-Restores a.health_checks k.health_checks)
                                    (λ v. refl) refl,
                                (
                                  text_tag-Reads _ _ _ _ _ _ (λ v. refl) refl,
                                  (
                                    int_tag-Reads _ _ _ _ n _ _ (e.ints _ k.instances) (λ v. refl)
                                        refl,
                                    (
                                      float_tag-Reads _ _ _ _ n _ _ k.mem (λ v. refl) refl,
                                      (
                                        list_tag-Reads _ _ _ _ _ _ _ _
                                            (each int-Restores a.ports k.ports) (λ v. refl) refl,
                                        (
                                          flag_tag-Reads _ _ _ _ _ _ (λ v. refl) refl,
                                          (
                                            list_tag-Reads _ _ _ _ _ _ _ _
                                                (everywhere text-Restores a.store_urls) (λ v. refl)
                                                refl,
                                            (
                                              struct_tag-Reads _ _ _ _ _ _ _
                                                  (upgrade-Restores _ k.minimum k.maximum)
                                                  (λ v. refl),
                                              (
                                                list_tag-Reads _ _ _ _ _ _ _ _
                                                    (everywhere text-Restores a.uris) (λ v. refl)
                                                    refl,
                                                (
                                                  text_tag-Reads _ _ _ _ _ _ (λ v. refl) refl,
                                                  (
                                                    text_tag-Reads _ _ _ _ _ _ (λ v. refl) refl,
                                                    refl,
                                                  ),
                                                ),
                                              ),
                                            ),
                                          ),
                                        ),
                                      ),
                                    ),
                                  ),
                                ),
                              ),
                            ),
                          ),
                        ),
                      ),
                    ),
                  ),
                ),
              ),
            ),
          ),
        ),
      )
