-- ===== src/Tests/Apps.antt =====
-- An application of marathon/marathon.go with most of its fields, and its JSON value.
use mantl_api.Prelude.{
  ℕ, String, ◌≡◌, refl, ap, ◌∙◌, Bool, true, false, none, some, List, [], ◌∷◌, eqb, arith,
}
use mathlib.Core.Option.{some-injective}
use mathlib.Core.Path.{subst}
use mantl_api.Prelude.Dict.{Unique}
use mantl_api.Prelude.Outcome.{ok}
use mantl_api.Prelude.Int.{ℤ, pos, negsuc}
use mantl_api.Json.{num, str, obj, end, field}
use mantl_api.Json.Struct.{Numbers, is_nil, is_zero_int}
use mantl_api.Marathon.{Container, App, empty_app}
use mantl_api.Marathon.AppJson.{app_value, app_from}
use mantl_api.Marathon.AppJson.RoundTrip.{
  Exact, SafeDocker, HasMaps, HasNumbers, app_from-app_value,
}

abbrev whole : Numbers ℤ
whole = record { nought = pos 0; is_zero = is_zero_int; of_int = λ i. i; to_int = ok }

whole-Exact : Exact whole
whole-Exact = record { ints = λ i h. refl }

one_zero : (x : ℤ) → is_zero_int x ≡ true → x ≡ pos 0
one_zero (pos n) h = ap pos (ground (arith, h))
one_zero (negsuc n) h = cc

abbrev spark : App ℤ
spark = record (empty_app (pos 0)) {
  id = "/spark";
  cpus = pos 2;
  args = "--master" ∷ [];
  constraints = ("hostname" ∷ "UNIQUE" ∷ []) ∷ [];
  ports = pos 80 ∷ [];
  instances = pos 3;
  labels = some (("owner", "me") ∷ []);
  container = some (record {
    docker = some (record {
      image = "spark";
      parameters = record { key = "net"; value = "host" } ∷ [];
      privileged = true;
      network = "";
      port_mappings =
          record {
            container_port = pos 80;
            host_port = pos 0;
            service_port = pos 8080;
            protocol = "tcp";
          }
          ∷ [];
      force_pull_image = false;
    });
    type = "DOCKER";
    volumes = [];
  });
}

spark-HasMaps : HasMaps spark
unfolding mantl_api.Prelude.Dict.get
spark-HasMaps = record {
  env = λ m h. cc;
  labels =
      λ m h. subst (λ l. (is_nil l ≡ false) × Unique l) (some-injective _ _ h) (refl, (refl, tt));
}

spark-HasNumbers : HasNumbers whole spark
spark-HasNumbers = record {
  instances = omega arith;
  backoff_seconds = omega arith;
  ports = (omega arith, tt);
  container = λ t p d q.
      subst SafeDocker
        (some-injective _ _ (ap (λ (c : Container). c.docker) (some-injective _ _ p) ∙ q))
        (
          record {
            container_port = omega arith;
            host_port = omega arith;
            service_port = omega arith;
          },
          tt,
        );
  health_checks = tt;
  cpus = one_zero _;
  disk = one_zero _;
  mem = one_zero _;
  backoff_factor = one_zero _;
  minimum = one_zero _;
  maximum = one_zero _;
}

app_from-app_value_example : app_from whole (app_value whole spark) ≡ ok spark
app_from-app_value_example =
    app_from-app_value whole whole-Exact spark spark-HasMaps spark-HasNumbers

-- An application with no instances is written without the number of its instances.
stopped :
    app_value whole (record (empty_app (pos 0)) { id = "/spark" })
    ≡ obj (field "id" (str "/spark") (field "upgradeStrategy" (obj end) end))
unfolding app_value mantl_api.Json.Tagged.encode_by mantl_api.Marathon.AppJson.app_tags
    mantl_api.Json.Tagged.field_if mantl_api.Json.Tagged.list_tag mantl_api.Json.Tagged.float_tag
    mantl_api.Json.Tagged.int_tag mantl_api.Json.Tagged.text_tag mantl_api.Json.Tagged.pointer_tag
    mantl_api.Json.Tagged.pointed mantl_api.Json.Tagged.map_tag mantl_api.Json.Tagged.map_of
    mantl_api.Json.Tagged.flag_tag mantl_api.Json.Tagged.struct_tag
    mantl_api.Marathon.AppJson.upgrade_tags
stopped = refl
