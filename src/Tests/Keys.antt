-- ===== src/Tests/Keys.antt =====
-- Runs of install/repository.go on the keys that install/source.go makes.
use mantl_api.Prelude.{String, ◌≡◌, refl, none, some, arith, List, [], ◌∷◌}
use mantl_api.Prelude.Int.{ℤ, pos, negsuc, IsInt, int_less, atoi}
use mantl_api.Prelude.Sort.{sort}
use mantl_api.Prelude.Outcome.{ok}
use mantl_api.Install.Repository.{repository_indexes}
use mantl_api.Install.Source.{Source, git}
use mantl_api.Install.Source.Keys.{repository_indexes-root_key}
use mantl_api.Tests.{consul, store}

abbrev at : ℤ → Source
at i = record { name = "mantl"; path = "/repo"; source_type = git; branch = ""; index = i }

-- the sources whose directories Consul lists
abbrev two : List Source
two = at (pos 10) ∷ at (pos 9) ∷ []

repository_indexes-root_key_example :
    repository_indexes consul store ≡ (ok (sort int_less (pos 10 ∷ pos 9 ∷ [])), store)
unfolding mantl_api.Install.Source.root_key mantl_api.Prelude.Slash.path_join
    mantl_api.Prelude.Int.show
repository_indexes-root_key_example =
    repository_indexes-root_key consul two store store (omega arith, (omega arith, tt)) refl

-- "9223372036854775808" is out of range
out_of_range : atoi "9223372036854775808" ≡ none
unfolding atoi
out_of_range = refl

least : atoi "-9223372036854775808" ≡ some (negsuc 9223372036854775807)
unfolding atoi
least = refl
