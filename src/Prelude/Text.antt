-- ===== src/Prelude/Text.antt =====
-- The methods of `str` that the program calls. A text is a list of Unicode scalar values; `len` is
-- the native count of its UTF-8 bytes.
mod Utf8
mod Decode
pub mod Split
use Prim.Native.Nat.{ℕ, ◌+◌, ◌-◌, ◌*◌, ◌^◌, ◌≤◌}
use Prim.Native.Char.{Char, code}
use Prim.Native.String.{String, []}
use Prim.Native.String
use mathlib.Core.Path.{◌≡◌, refl}
use mathlib.Core.Bool.{Bool, true, false, ◌&&◌, ◌||◌}
use mathlib.Core.Option.{Option, none, some}
use mathlib.Core.List
use mathlib.Core.List.{List}
use native.Mathlib.Omega.{arith}
use text.Mathlib.Text.{◌==◌}
use discord_oidc.Prelude.Tests.{leb, eqb, is_some, if◌then◌else◌}
unfoldable pub use Utf8.*
unfoldable pub use Decode.{from_utf8}

-- `char::is_whitespace`: the Unicode property White_Space.
abbrev pub is_whitespace : Char → Bool
is_whitespace c =
    let n = code c in
    (leb 9 n && leb n 13)
    || eqb n 0x20
    || eqb n 0x85
    || eqb n 0xa0
    || eqb n 0x1680
    || (leb 0x2000 n && leb n 0x200a)
    || eqb n 0x2028
    || eqb n 0x2029
    || eqb n 0x202f
    || eqb n 0x205f
    || eqb n 0x3000

-- `u8::is_ascii_digit` and `u8::is_ascii_alphanumeric`.
abbrev pub is_ascii_digit : ℕ → Bool
is_ascii_digit b = leb 48 b && leb b 57

abbrev pub is_ascii_alphanumeric : ℕ → Bool
is_ascii_alphanumeric b = is_ascii_digit b || (leb 65 b && leb b 90) || (leb 97 b && leb b 122)

abbrev pub is_empty_text : String → Bool
is_empty_text [] = true
is_empty_text (String.◌∷◌ c s) = false

-- Trimming characters that have a property, at the start and at the end.
unfoldable pub trim_start_matches : (Char → Bool) → String → String
trim_start_matches p [] = []
trim_start_matches p (String.◌∷◌ c s) = if p c then trim_start_matches p s else String.◌∷◌ c s

unfoldable pub trim_end_matches : (Char → Bool) → String → String
trim_end_matches p [] = []
trim_end_matches p (String.◌∷◌ c s) =
    let t = trim_end_matches p s in if is_empty_text t && p c then [] else String.◌∷◌ c t

unfoldable pub trim : String → String
unfolding trim_start_matches trim_end_matches
trim s = trim_end_matches is_whitespace (trim_start_matches is_whitespace s)

-- The word that stands at the front, and the words behind it.
pub close_word : String → List String → List String
close_word w ws = if is_empty_text w then ws else List.◌∷◌ w ws

pub words : String → String × List String
unfolding close_word
words [] = ([], List.[])
words (String.◌∷◌ c s) =
    let (w, ws) = words s in if is_whitespace c then ([], close_word w ws) else (String.◌∷◌ c w, ws)

unfoldable pub split_whitespace : String → List String
unfolding words close_word
split_whitespace s = let (w, ws) = words s in close_word w ws

-- `split(c)` for one character: always at least one part.
pub split_parts : ℕ → String → String × List String
split_parts n [] = ([], List.[])
split_parts n (String.◌∷◌ c s) =
    let (w, ws) = split_parts n s in
    if eqb (code c) n then ([], List.◌∷◌ w ws) else (String.◌∷◌ c w, ws)

unfoldable pub split : ℕ → String → List String
unfolding split_parts
split n s = let (w, ws) = split_parts n s in List.◌∷◌ w ws

unfoldable pub split_once : ℕ → String → Option (String × String)
split_once n [] = none
split_once n (String.◌∷◌ c s) =
    let rest = split_once n s in
    if eqb (code c) n
    then some ([], s)
    else elim rest [ none ↦ none | some (a, b) ↦ some (String.◌∷◌ c a, b) ]

unfoldable pub strip_prefix : String → String → Option String
strip_prefix [] s = some s
strip_prefix (String.◌∷◌ c p) [] = none
strip_prefix (String.◌∷◌ c p) (String.◌∷◌ d s) =
    if eqb (code c) (code d) then strip_prefix p s else none

unfoldable pub starts_with : String → String → Bool
unfolding strip_prefix
starts_with p s = is_some (strip_prefix p s)

abbrev pub is_slash : Char → Bool
is_slash c = eqb (code c) b'/'

-- `contains(c)` for one character.
unfoldable pub contains_char : ℕ → String → Bool
contains_char n [] = false
contains_char n (String.◌∷◌ c s) = eqb (code c) n || contains_char n s

-- `replace(c, t)` for one character.
unfoldable pub replace : ℕ → String → String → String
replace n t [] = []
replace n t (String.◌∷◌ c s) =
    if eqb (code c) n then String.◌++◌ t (replace n t s) else String.◌∷◌ c (replace n t s)

-- `join(" ")`.
unfoldable pub join : String → List String → String
join sep List.[] = []
join sep (List.◌∷◌ w List.[]) = w
join sep (List.◌∷◌ w (List.◌∷◌ v ws)) = String.◌++◌ w (String.◌++◌ sep (join sep (List.◌∷◌ v ws)))

split_whitespace_test :
    split_whitespace " openid  email " ≡ List.◌∷◌ "openid" (List.◌∷◌ "email" List.[])
unfolding split_whitespace
split_whitespace_test = refl

split_test : split b'/' "a//b" ≡ List.◌∷◌ "a" (List.◌∷◌ "" (List.◌∷◌ "b" List.[]))
unfolding split
split_test = refl

trim_test : trim " a b " ≡ "a b"
unfolding trim
trim_test = refl

-- `parse::<u64>()`: an optional sign, then digits of a number below 2 ^ 64.
unfoldable pub digits_value : ℕ → List ℕ → Option ℕ
digits_value n List.[] = some n
digits_value n (List.◌∷◌ b bs) =
    if is_ascii_digit b && leb (n * 10 + (b - 48)) (2 ^ 64 - 1)
    then digits_value (n * 10 + (b - 48)) bs
    else none

unfoldable pub parse_u64 : String → Option ℕ
unfolding digits_value
parse_u64 s = elim (as_bytes s) [
  | List.[] ↦ none
  | List.◌∷◌ b List.[] ↦ digits_value 0 (List.◌∷◌ b List.[])
  | List.◌∷◌ b (List.◌∷◌ d bs) ↦
      if eqb b b'+'
      then digits_value 0 (List.◌∷◌ d bs)
      else digits_value 0 (List.◌∷◌ b (List.◌∷◌ d bs))
]
