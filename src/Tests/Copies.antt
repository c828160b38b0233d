-- ===== src/Tests/Copies.antt =====
-- Runs of install/source.go and install/package.go on one file of a package.
use mantl_api.Prelude.{
  String, ◌≡◌, refl, ap, sym, true, some, Option, List, [], ◌∷◌, ◌==◌, if◌then◌else◌,
}
use mantl_api.Prelude.Dict.{Map, get, put, get-put}
use mantl_api.Prelude.Lists.{All}
use mantl_api.Prelude.Int.{pos}
use mantl_api.Prelude.Text.{has_code}
use mantl_api.Prelude.Outcome.{ok, ok-injective}
use mantl_api.Prelude.Slash.Plain.{IsPlain}
use mantl_api.Install.Package.{Package, new_package, container_id, package_version_key}
use mantl_api.Install.Repository.{Repository}
use mantl_api.Install.Source.{Source, Host, file_system, is_source_artifact, visit_all, sync}
use mantl_api.Install.Source.Copy.{Faithful}
use mantl_api.Install.Fetch.{definition_file, definition_key}
use mantl_api.Install.Fetch.Layers.{config}
use mantl_api.Install.Fetch.Synced.{definition_file-sync}
use mantl_api.Consul.{Consul}
use mantl_api.Prelude.Dict.{keys, In-keys}
use mantl_api.Prelude.Lists.{In}
use mantl_api.Prelude.Int.{show}
use mantl_api.Prelude.Text.{has_prefix}
use mantl_api.Install.Repository.{repository_root}
use mantl_api.Install.Catalog.{Catalog, new_package_catalog, package_keys}
use mantl_api.Install.Catalog.Held.{held}
use mantl_api.Install.Catalog.Listed.{new_package_catalog-sync}
use mantl_api.Tests.{consul}

abbrev local : Source
local = record {
  name = "mantl";
  path = "/repo";
  source_type = file_system;
  branch = "";
  index = pos 0;
}

abbrev disk_file : String
disk_file = "/repo/repo/packages/S/spark/0/config.json"

abbrev disk : Host (Map String)
disk = record {
  visits = λ path w. (ok ("/repo" ∷ disk_file ∷ []), w);
  rel = λ base path. ok "repo/packages/S/spark/0/config.json";
  read_file = λ path w. (ok "schema", w);
  temp_dir = λ name w. (ok "/tmp", w);
  remove_all = λ path w. (ok tt, w);
  run_git = λ args w. (ok tt, w);
  now = λ w. (ok "now", w);
  parse_time = λ s. ok (pos 7);
}

abbrev after : Map String
after =
    ("mantl-install/repository/0/repo/packages/S/spark/0/config.json", "schema")
    ∷ ("mantl-install/repository/0/name", "mantl")
    ∷ ("mantl-install/repository/0/updated", "now")
    ∷ []

copied_disk : sync consul disk local "/repo" [] ≡ (ok tt, after)
unfolding sync visit_all mantl_api.Install.Source.visit is_source_artifact
    mantl_api.Prelude.Text.ext mantl_api.Install.Source.add_source_artifact
    mantl_api.Install.Source.set_name mantl_api.Install.Source.set_timestamp put
    mantl_api.Prelude.Slash.path_join mantl_api.Install.Source.root_key mantl_api.Prelude.Int.show
    mantl_api.Install.Source.source_timestamp_key
copied_disk = refl

lasting : Faithful consul disk (λ w k. get k w) (λ p. "schema")
lasting = record {
  puts = λ k v j w w' h. rw (← ap (λ z. z.1) h) (get-put k j v w);
  reads = λ p t w w' h.
      (sym (ok-injective (ap (λ z. z.0) h)), λ j. ap (λ u. get j u) (sym (ap (λ z. z.1) h)));
  lists = λ p j fs w w' h. ap (λ u. get j u) (sym (ap (λ z. z.1) h));
  clock = λ j t w w' h. ap (λ u. get j u) (sym (ap (λ z. z.1) h));
}

abbrev pkg : Package
pkg = new_package "spark"

container : container_id pkg ≡ ok "S"
unfolding container_id mantl_api.Prelude.Text.to_upper
container = refl

schema_file : is_source_artifact disk_file ≡ true
unfolding is_source_artifact mantl_api.Prelude.Text.ext
schema_file = refl

version_path : All IsPlain ("S" ∷ "spark" ∷ "0" ∷ [])
unfolding has_code
version_path = (
  record { nonempty = refl; ne_dot = refl; ne_dots = refl; lacks = refl },
  (
    record { nonempty = refl; ne_dot = refl; ne_dots = refl; lacks = refl },
    (record { nonempty = refl; ne_dot = refl; ne_dots = refl; lacks = refl }, tt),
  ),
)

abbrev local_repository : Repository
local_repository = record { name = "mantl"; index = pos 0 }

definition_file-sync_example :
    (key : String) × (package_version_key pkg "0" ≡ ok key)
    × (definition_file consul "config.json" (definition_key consul local_repository key) after
        ≡ (ok "schema", after))
unfolding mantl_api.Prelude.Text.join
definition_file-sync_example =
    definition_file-sync consul disk (λ w k. get k w) (λ p. "schema") lasting local "/repo"
      local_repository pkg "S" "0" config ("/repo" ∷ []) disk_file [] [] [] after version_path.0
      version_path.1.0 version_path.1.1.0 refl container copied_disk refl schema_file refl tt
      (λ k. refl)

-- all keys of the store
abbrev after_keys : List String
after_keys =
    "mantl-install/repository/0/repo/packages/S/spark/0/config.json"
    ∷ "mantl-install/repository/0/name" ∷ "mantl-install/repository/0/updated" ∷ []

abbrev listing : Consul (Map String)
listing = record consul { keys = λ prefix sep w. (ok after_keys, w) }

copied_listing : sync listing disk local "/repo" [] ≡ (ok tt, after)
unfolding sync visit_all mantl_api.Install.Source.visit is_source_artifact
    mantl_api.Prelude.Text.ext mantl_api.Install.Source.add_source_artifact
    mantl_api.Install.Source.set_name mantl_api.Install.Source.set_timestamp put
    mantl_api.Prelude.Slash.path_join mantl_api.Install.Source.root_key mantl_api.Prelude.Int.show
    mantl_api.Install.Source.source_timestamp_key
copied_listing = refl

lasting_listing : Faithful listing disk (λ w k. get k w) (λ p. "schema")
lasting_listing = record {
  puts = lasting.puts;
  reads = lasting.reads;
  lists = lasting.lists;
  clock = lasting.clock;
}

all_listed :
    (key text : String)
    → has_prefix key repository_root ≡ true
    → get key after ≡ some text
    → In key after_keys
unfolding keys
all_listed key text p h = In-keys key text after h

new_package_catalog-sync_example :
    (c : Catalog) × (new_package_catalog listing repository_root after ≡ (ok c, after))
    × ((d : String) × (held "spark" (show (pos 0)) "0" c ≡ some d) × In d (package_keys c "spark"))
unfolding mantl_api.Prelude.Text.join
new_package_catalog-sync_example =
    new_package_catalog-sync listing disk (λ w k. get k w) (λ p. "schema") lasting_listing local
      "/repo" "S" "spark" "0" config ("/repo" ∷ []) disk_file [] after_keys [] [] after
      version_path.0 version_path.1.0 version_path.1.1.0 copied_listing refl schema_file refl tt
      refl all_listed
