-- ===== src/Prelude/Text.antt =====
-- Python's `str.strip`, `lower` and `upper` on ASCII text, `x in text`, and `":".join(parts)`.
use Prim.Native.Char.{Char, code}
use Prim.Native.String.{String, ◌++◌}
use mathlib.Core.Bool.{Bool, true, false, ◌||◌, ◌&&◌}
use mathlib.Core.List.{List, [], ◌∷◌}
use text.Mathlib.Text.{find?, starts_with as starts_with_text}
use portfolio_tracker_public.Prelude.Tests.{eqb, leb, if◌then◌else◌, is_none}
use mathlib.Core.Bool.{not}

-- The letters by position in the alphabet, in one case and in the other.
abbrev swap_case : String → String → Char → Char
swap_case String.[] _ c = c
swap_case (String.◌∷◌ _ _) String.[] c = c
swap_case (String.◌∷◌ x xs) (String.◌∷◌ y ys) c =
    let rest = swap_case xs ys c in if eqb (code x) (code c) then y else rest

abbrev upper_letters : String
upper_letters = "ABCDEFGHIJKLMNOPQRSTUVWXYZ"

abbrev lower_letters : String
lower_letters = "abcdefghijklmnopqrstuvwxyz"

unfoldable pub lower : String → String
lower String.[] = String.[]
lower (String.◌∷◌ c s) = String.◌∷◌ (swap_case upper_letters lower_letters c) (lower s)

unfoldable pub upper : String → String
upper String.[] = String.[]
upper (String.◌∷◌ c s) = String.◌∷◌ (swap_case lower_letters upper_letters c) (upper s)

-- The white space of ASCII: tab to carriage return, the separators 28 to 31, and the blank.
abbrev is_space : Char → Bool
is_space c = (leb 9 (code c) && leb (code c) 13) || (leb 28 (code c) && leb (code c) 32)

unfoldable pub lstrip : String → String
lstrip String.[] = String.[]
lstrip (String.◌∷◌ c s) = let rest = lstrip s in if is_space c then rest else String.◌∷◌ c s

unfoldable pub rstrip : String → String
rstrip String.[] = String.[]
rstrip (String.◌∷◌ c s) = elim (rstrip s) [
  | String.[] ↦ if is_space c then String.[] else String.◌∷◌ c String.[]
  | String.◌∷◌ d r ↦ String.◌∷◌ c (String.◌∷◌ d r)
]

unfoldable pub strip : String → String
unfolding lstrip rstrip
strip s = rstrip (lstrip s)

-- `part in s`
unfoldable pub has_part : String → String → Bool
has_part part s = not (is_none (find? s part))

unfoldable pub starts_with : String → String → Bool
starts_with s t = starts_with_text s t

-- A text is true in a test unless it is empty.
abbrev pub is_truthy : String → Bool
is_truthy String.[] = false
is_truthy (String.◌∷◌ _ _) = true

-- `":".join(parts)`
unfoldable pub join_key : List String → String
join_key [] = ""
join_key (x ∷ []) = x
join_key (x ∷ y ∷ ys) = x ++ (":" ++ join_key (y ∷ ys))
