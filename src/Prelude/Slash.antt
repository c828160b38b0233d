-- ===== src/Prelude/Slash.antt =====
-- `path.Clean` and `path.Join`.
pub mod Plain
pub mod Texts
use Prim.Native.String.{String, ◌++◌}
use mathlib.Core.Path.{◌≡◌, refl}
use mathlib.Core.Bool.{Bool, ◌||◌}
use mathlib.Core.List.{List, [], ◌∷◌, reverse}
use text.Mathlib.Text.{◌==◌}
use mantl_api.Prelude.Tests.{if◌then◌else◌}
use mantl_api.Prelude.Text.{split, join, has_prefix}

-- A `..` takes the last element away, unless that is a `..` that could not be resolved.
step_up : Bool → List String → List String
step_up rooted [] = if rooted then [] else ".." ∷ []
step_up rooted (top ∷ stack) = if top == ".." then ".." ∷ top ∷ stack else stack

-- The elements that are kept, the last one first.
unfoldable pub resolve : Bool → List String → List String → List String
unfolding step_up
resolve rooted stack [] = stack
resolve rooted stack (part ∷ parts) =
    resolve rooted
      (if part == "" || part == "."
        then stack
        else if part == ".."
        then step_up rooted stack
        else part ∷ stack)
      parts

unfoldable pub clean : String → String
unfolding resolve split join has_prefix
clean s =
    let rooted = has_prefix s "/" in
    let body = join (reverse (resolve rooted [] (split s b'/'))) "/" in
    if rooted then "/" ++ body else if body == "" then "." else body

unfoldable pub drop_empty : List String → List String
drop_empty [] = []
drop_empty (p ∷ ps) = let rest = drop_empty ps in if p == "" then rest else p ∷ rest

-- `path.Join`
unfoldable pub path_join : List String → String
unfolding drop_empty clean
path_join parts = let kept = join (drop_empty parts) "/" in if kept == "" then "" else clean kept

joined :
    path_join ("mantl-install/repository" ∷ "0" ∷ "repo/packages" ∷ [])
    ≡ "mantl-install/repository/0/repo/packages"
unfolding path_join
joined = refl

cleaned : clean "/a//b/./../c/" ≡ "/a/c"
unfolding clean
cleaned = refl

climbed : clean "../a/../../b" ≡ "../../b"
unfolding clean
climbed = refl
