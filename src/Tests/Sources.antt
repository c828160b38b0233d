-- ===== src/Tests/Sources.antt =====
-- Runs of install/source.go and main.go.
use mantl_api.Prelude.{
  ℕ, String, ◌≡◌, refl, ◌≢◌, ◌↔◌, ◌==◌, Bool, true, false, Option, none, some, List, [], ◌∷◌,
  reverse, ◌⊎◌, inl, inr,
}
use mantl_api.Prelude.Dict.{Map, get, put}
use mantl_api.Prelude.Lists.{In}
use mantl_api.Prelude.Int.{ℤ, pos}
use mantl_api.Prelude.Outcome.{ok}
use mantl_api.Json.{Value, num, str, obj, Fields, end, field}
use mantl_api.Install.Source.{
  Source, Host, file_system, is_valid, root_key, source_timestamp_key, source_last_updated,
  visit_all, sync, sync_sources,
}
use mantl_api.Install.Source.Laws.{sync_sources-fresh}
use mantl_api.Main.{Int64, source_of, configured, default_sources, sources}
use mantl_api.Main.Laws.{Binds, sources-In}
use mantl_api.Prelude.Slash.{path_join}
use mantl_api.Install.Source.{is_source_artifact}
use mantl_api.Install.Source.Copy.{Faithful, sync-look}
use mantl_api.Prelude.{ap, sym, ◌≤◌, if◌then◌else◌, arith}
use mantl_api.Prelude.Outcome.{ok-injective}
use mantl_api.Prelude.Dict.{get-put}
use mantl_api.Tests.{consul}

abbrev source : Source
source = record {
  name = "mantl";
  path = "/repo";
  source_type = file_system;
  branch = "";
  index = pos 0;
}

abbrev host : Host (Map String)
host = record {
  visits = λ path w. (ok ("/repo/spark.json" ∷ []), w);
  rel = λ base path. ok "spark.json";
  read_file = λ path w. (ok "text", w);
  temp_dir = λ name w. (ok "/tmp", w);
  remove_all = λ path w. (ok tt, w);
  run_git = λ args w. (ok tt, w);
  now = λ w. (ok "now", w);
  parse_time = λ s. ok (pos 7);
}

abbrev copied : Map String
copied =
    ("mantl-install/repository/0/spark.json", "text")
    ∷ ("mantl-install/repository/0/name", "mantl")
    ∷ ("mantl-install/repository/0/updated", "now")
    ∷ []

copy : sync consul host source "/repo" [] ≡ (ok tt, copied)
unfolding sync visit_all mantl_api.Install.Source.visit mantl_api.Install.Source.is_source_artifact
    mantl_api.Prelude.Text.ext mantl_api.Install.Source.add_source_artifact
    mantl_api.Install.Source.set_name mantl_api.Install.Source.set_timestamp put path_join root_key
    mantl_api.Prelude.Int.show source_timestamp_key
copy = refl

stamped : source_last_updated consul host source copied ≡ (ok (pos 7), copied)
unfolding source_last_updated get source_timestamp_key path_join root_key mantl_api.Prelude.Int.show
stamped = refl

timestamps :
    (s : Source)
    → In s (source ∷ [])
    → (t : ℤ) × (source_last_updated consul host s copied ≡ (ok t, copied)) × (t ≢ pos 0)
timestamps s m = elim m [ inl p ↦ (pos 7, rw p stamped, λ h. cc) | inr f ↦ absurd f ]

sync_sources-fresh_example : sync_sources consul host (source ∷ []) false copied ≡ (ok tt, copied)
sync_sources-fresh_example = sync_sources-fresh consul host (source ∷ []) copied timestamps

abbrev int64 : Int64 ℕ
int64 n = some (pos n)

abbrev config : Fields ℕ
config =
    field "mantl" (obj (field "path" (str "/repo") (field "index" (num 3) end)))
      (field "broken" (obj end) end)

abbrev configured_source : Source
configured_source = record {
  name = "mantl";
  path = "/repo";
  source_type = file_system;
  branch = "";
  index = pos 3;
}

to_copy : sources int64 config ≡ ok (configured_source ∷ [])
unfolding sources configured is_valid source_of mantl_api.Json.get
to_copy = refl

sources-In_example :
    (◌≢◌ {A = List Source} (configured_source ∷ []) [])
    × ((s : Source)
        → In s (configured_source ∷ [])
        → (is_valid s ≡ true)
          × (((name : String) × (c : Fields ℕ) × Binds int64 name c config
                × (s ≡ source_of int64 name c))
              ⊎ ((configured int64 config ≡ ok []) × In s default_sources)))
sources-In_example = sources-In int64 config (configured_source ∷ []) to_copy

faithful : Faithful consul host (λ w k. get k w) (λ p. "text")
faithful = record {
  puts = λ k v j w w' h. rw (← ap (λ z. z.1) h) (get-put k j v w);
  reads = λ p t w w' h.
      (sym (ok-injective (ap (λ z. z.0) h)), λ j. ap (λ u. get j u) (sym (ap (λ z. z.1) h)));
  lists = λ p j fs w w' h. ap (λ u. get j u) (sym (ap (λ z. z.1) h));
  clock = λ j t w w' h. ap (λ u. get j u) (sym (ap (λ z. z.1) h));
}

not_the_name :
    (path_join (root_key source ∷ "name" ∷ []) == path_join (root_key source ∷ "spark.json" ∷ []))
    ≡ false
unfolding path_join root_key mantl_api.Prelude.Int.show
not_the_name = refl

not_the_time :
    (source_timestamp_key source == path_join (root_key source ∷ "spark.json" ∷ [])) ≡ false
unfolding source_timestamp_key path_join root_key mantl_api.Prelude.Int.show
not_the_time = refl

artifact : is_source_artifact "/repo/spark.json" ≡ true
unfolding is_source_artifact mantl_api.Prelude.Text.ext
artifact = refl

sync-look_example : get (path_join (root_key source ∷ "spark.json" ∷ [])) copied ≡ some "text"
sync-look_example =
    sync-look consul host (λ w k. get k w) (λ p. "text") faithful source "/repo" []
      "/repo/spark.json" "spark.json" [] [] [] copied copy refl artifact refl tt not_the_name
      not_the_time
