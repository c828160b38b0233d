-- ===== src/Install/Source/Keys.antt =====
-- The index of a source in the keys of Consul, as it is written and as it is read.
use Prim.Native.String.{◌++◌}
use mantl_api.Prelude.{String, ◌≡◌, refl, ap, ◌∙◌, List, [], ◌∷◌, map}
use mantl_api.Prelude.Lists.{All}
use mantl_api.Prelude.Outcome.{ok}
use mantl_api.Prelude.Sort.{sort}
use mantl_api.Prelude.Text.{split, join, has_code}
use mantl_api.Prelude.Text.Split.{Lacks, split-join, trim_suffix-slash}
use mantl_api.Prelude.Slash.Plain.{IsPlain, path_join-join, path_join-slash}
use mantl_api.Prelude.Int.{IsInt, int_less, show}
use mantl_api.Prelude.Int.Digits.{show-IsPlain, atoi-show}
use mantl_api.Install.Repository.{last_part, last_or_empty, indexes_of, repository_indexes}
use mantl_api.Consul.{Consul}
use mantl_api.Install.Source.{Source, root_key}

abbrev pub elements : Source → List String
elements s = "mantl-install" ∷ "repository" ∷ show s.index ∷ []

pub elements-IsPlain : (s : Source) → All IsPlain (elements s)
unfolding has_code
elements-IsPlain s = (
  record { nonempty = refl; ne_dot = refl; ne_dots = refl; lacks = refl },
  (
    record { nonempty = refl; ne_dot = refl; ne_dots = refl; lacks = refl },
    (show-IsPlain s.index, tt),
  ),
)

pub root_key-join : (s : Source) → root_key s ≡ join (elements s) "/"
unfolding root_key
root_key-join s =
    path_join-slash "mantl-install" "repository" (show s.index) refl refl refl
      (show-IsPlain s.index).nonempty
    ∙ path_join-join "mantl-install" ("repository" ∷ show s.index ∷ []) (elements-IsPlain s)

elements_lack : (s : Source) → All (Lacks b'/') (elements s)
elements_lack s = let (a, (b, (c, t))) = elements-IsPlain s in (a.lacks, (b.lacks, (c.lacks, tt)))

last_part-root_key : (s : Source) → last_part (root_key s ++ "/") ≡ show s.index
unfolding last_part
last_part-root_key s =
    ap (λ k. last_or_empty (split k b'/')) (trim_suffix-slash (root_key s) ∙ root_key-join s)
    ∙ ap last_or_empty
        (split-join "mantl-install" ("repository" ∷ show s.index ∷ []) (elements_lack s))

indexes_of-root_key :
    (ss : List Source)
    → All (λ (s : Source). IsInt s.index) ss
    → indexes_of (map (λ (s : Source). root_key s ++ "/") ss) ≡ map (λ (s : Source). s.index) ss
unfolding indexes_of
indexes_of-root_key [] h = refl
indexes_of-root_key (s ∷ ss) h =
    rw (last_part-root_key s, atoi-show s.index h.0, indexes_of-root_key ss h.1) refl

-- If Consul lists the directories under which sources with indexes of 64 bits were stored,
-- `repositoryIndexes` returns the indexes of those sources, sorted.
pub repository_indexes-root_key :
    {W : Type 0} (consul : Consul W) (ss : List Source) (w w' : W)
    → All (λ (s : Source). IsInt s.index) ss
    → consul.keys "mantl-install/repository/" "/" w
      ≡ (ok (map (λ (s : Source). root_key s ++ "/") ss), w')
    → repository_indexes consul w ≡ (ok (sort int_less (map (λ (s : Source). s.index) ss)), w')
unfolding repository_indexes
repository_indexes-root_key consul ss w w' h k = rw (k, indexes_of-root_key ss h) refl
