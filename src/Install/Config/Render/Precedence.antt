-- ===== src/Install/Config/Render/Precedence.antt =====
-- Which of its four sources a setting comes from.
use mantl_api.Prelude.{String, Option, none}
use mantl_api.Prelude.Outcome.{Result, ◌>>=◌}
use mantl_api.Json.{Value, Codec}
use mantl_api.Install.Config.Definition.{PackageDefinition}
use mantl_api.Install.Config.Schema
use mantl_api.Install.Config.Schema.{Group, properties_of}
use mantl_api.Install.Config.Merge.{group_at}
use mantl_api.Install.Config.Merge.Laws.{merged_at}
use mantl_api.Install.Config.Merge.Defaults.{defaulted_at}

module _ {N : Type 0} (c : Codec N) (d : PackageDefinition N) where
  -- One setting, from the four sources in turn: the defaults, the options, the user and the API.
  pub setting :
      Group N
      → Option (Value N)
      → Option (Value N)
      → Option (Value N)
      → String
      → Result (Option (Value N))
  setting schema template user api k = do
    default ← defaulted_at c d none (Schema.find k (properties_of schema))
    with_user ← merged_at c d template user (group_at k schema)
    with_api ← merged_at c d with_user api (group_at k schema)
    merged_at c d default with_api (group_at k schema)
