-- ===== src/Prelude/Text.antt =====
-- The operations of Go's `strings` that the program calls, on texts in ASCII: letter case and
-- white space beyond ASCII are not folded. The order is that of Go's `<` on strings.
mod Order
pub mod Split
unfoldable pub use Order.*
use Prim.Native.Nat.{ℕ, zero, suc, ◌-◌, ◌+◌}
use Prim.Native.Char.{Char, code}
use Prim.Native.String.{String, [], ◌∷◌, ◌++◌, char_at, count}
use mathlib.Core.Path.{◌≡◌, refl}
use mathlib.Core.Bool.{Bool, true, false, not, ◌&&◌, ◌||◌}
use mathlib.Core.Option
use mathlib.Core.Option.{Option, none, some, get_or}
use mathlib.Core.List as L
use mathlib.Core.List.{List}
use text.Mathlib.Text.{◌==◌}
use mantl_api.Prelude.Tests.{leb, eqb, if◌then◌else◌}

unfoldable pub prepend : Char → List String → List String
prepend c L.[] = L.◌∷◌ (c ∷ []) L.[]
prepend c (L.◌∷◌ w ws) = L.◌∷◌ (c ∷ w) ws

-- `strings.Split(s, sep)` for a separator of one character, given by its code
unfoldable pub split : String → ℕ → List String
unfolding prepend
split [] sep = L.◌∷◌ "" L.[]
split (c ∷ s) sep =
    let rest = split s sep in if eqb (code c) sep then L.◌∷◌ "" rest else prepend c rest

-- `strings.Join`
unfoldable pub join : List String → String → String
join L.[] sep = ""
join (L.◌∷◌ w L.[]) sep = w
join (L.◌∷◌ w (L.◌∷◌ v ws)) sep = w ++ sep ++ join (L.◌∷◌ v ws) sep

-- what is left of a text behind a prefix
unfoldable pub strip_prefix : String → String → Option String
strip_prefix [] s = some s
strip_prefix (c ∷ p) [] = none
strip_prefix (c ∷ p) (d ∷ s) =
    let rest = strip_prefix p s in if eqb (code c) (code d) then rest else none

abbrev is_some : Option String → Bool
is_some none = false
is_some (some s) = true

-- `strings.HasPrefix`
unfoldable pub has_prefix : String → String → Bool
unfolding strip_prefix
has_prefix s p = is_some (strip_prefix p s)

-- `strings.TrimPrefix`
unfoldable pub trim_prefix : String → String → String
unfolding strip_prefix
trim_prefix s p = get_or (strip_prefix p s) s

-- what is left of a text before a suffix
unfoldable pub strip_suffix : String → String → Option String
strip_suffix p [] = if p == "" then some "" else none
strip_suffix p (c ∷ s) =
    let rest = strip_suffix p s in if c ∷ s == p then some "" else Option.map (λ r. c ∷ r) rest

-- `strings.HasSuffix`
unfoldable pub has_suffix : String → String → Bool
unfolding strip_suffix
has_suffix s p = is_some (strip_suffix p s)

-- `strings.TrimSuffix`
unfoldable pub trim_suffix : String → String → String
unfolding strip_suffix
trim_suffix s p = get_or (strip_suffix p s) s

-- `strings.Contains`
unfoldable pub contains : String → String → Bool
unfolding has_prefix
contains [] p = p == ""
contains (c ∷ s) p = has_prefix (c ∷ s) p || contains s p

-- The loop of `strings.Replace`: `skip` characters of the last occurrence are still to be passed.
replace_from : String → String → ℕ → String → String
unfolding has_prefix
replace_from old new skip [] = ""
replace_from old new (suc skip) (c ∷ s) = replace_from old new skip s
replace_from old new zero (c ∷ s) =
    let inside = replace_from old new (count old - 1) s in
    let outside = replace_from old new zero s in
    if has_prefix (c ∷ s) old then new ++ inside else c ∷ outside

-- `strings.Replace(s, old, new, -1)` for an `old` that is not empty
unfoldable pub replace : String → String → String → String
unfolding replace_from
replace s old new = replace_from old new zero s

unfoldable pub has_code : ℕ → String → Bool
has_code sep [] = false
has_code sep (c ∷ s) = eqb (code c) sep || has_code sep s

-- `s[0 : strings.LastIndex(s, sep)+1]`
unfoldable pub through_last : String → ℕ → String
unfolding has_code
through_last [] sep = ""
through_last (c ∷ s) sep =
    let rest = through_last s sep in if has_code sep (c ∷ s) then c ∷ rest else ""

-- `path.Ext`
unfoldable pub ext : String → String
unfolding has_code
ext [] = ""
ext (c ∷ s) =
    let rest = ext s in
    if not (rest == "")
    then rest
    else if eqb (code c) b'.' && not (has_code b'/' s)
    then c ∷ s
    else ""

is_space : Char → Bool
is_space c = eqb (code c) 32 || (leb 9 (code c) && leb (code c) 13)

trim_left : String → String
unfolding is_space
trim_left [] = ""
trim_left (c ∷ s) = let rest = trim_left s in if is_space c then rest else c ∷ s

trim_right : String → String
unfolding is_space
trim_right [] = ""
trim_right (c ∷ s) = let rest = trim_right s in if is_space c && rest == "" then "" else c ∷ rest

-- `strings.TrimSpace`
unfoldable pub trim_space : String → String
unfolding trim_left trim_right
trim_space s = trim_right (trim_left s)

abbrev uppers : String
uppers = "ABCDEFGHIJKLMNOPQRSTUVWXYZ"

abbrev lowers : String
lowers = "abcdefghijklmnopqrstuvwxyz"

upper : Char → Char
upper c = if leb b'a' (code c) && leb (code c) b'z' then char_at uppers (code c - b'a') else c

lower : Char → Char
lower c = if leb b'A' (code c) && leb (code c) b'Z' then char_at lowers (code c - b'A') else c

-- `strings.ToUpper`
unfoldable pub to_upper : String → String
unfolding upper
to_upper [] = ""
to_upper (c ∷ s) = upper c ∷ to_upper s

-- `strings.ToLower`
unfoldable pub to_lower : String → String
unfolding lower
to_lower [] = ""
to_lower (c ∷ s) = lower c ∷ to_lower s

fold : Char → ℕ
fold c = if leb b'A' (code c) && leb (code c) b'Z' then code c + 32 else code c

-- `strings.EqualFold`
unfoldable pub equal_fold : String → String → Bool
unfolding fold
equal_fold [] [] = true
equal_fold [] (d ∷ t) = false
equal_fold (c ∷ s) [] = false
equal_fold (c ∷ s) (d ∷ t) = eqb (fold c) (fold d) && equal_fold s t
