-- ===== src/Prelude/Numerals.antt =====
-- `parse::<i64>()`.
use Prim.Native.Nat.{ℕ, ◌+◌, ◌-◌, ◌*◌, ◌^◌}
use Prim.Native.String.{String}
use mathlib.Core.Path.{◌≡◌, refl}
use mathlib.Core.Bool.{◌&&◌}
use mathlib.Core.Option.{Option, none, some}
use mathlib.Core.List.{List, [], ◌∷◌}
use discord_oidc.Prelude.Tests.{leb, eqb, if◌then◌else◌}
use discord_oidc.Prelude.Int.{ℤ, pos, negsuc, sub_ℕ}
use discord_oidc.Prelude.Text.{as_bytes, is_ascii_digit}

-- The value of digits that follow a number, unless it exceeds the limit on the way.
unfoldable pub digits_upto : ℕ → ℕ → List ℕ → Option ℕ
digits_upto limit n [] = some n
digits_upto limit n (b ∷ bs) =
    let rest = digits_upto limit (n * 10 + (b - 48)) bs in
    if is_ascii_digit b && leb (n * 10 + (b - 48)) limit then rest else none

abbrev positive : Option ℕ → Option ℤ
positive none = none
positive (some n) = some (pos n)

abbrev negative : Option ℕ → Option ℤ
negative none = none
negative (some n) = some (sub_ℕ 0 n)

-- A sign is one only in front of something.
unfoldable pub parse_i64 : String → Option ℤ
unfolding digits_upto
parse_i64 s = elim (as_bytes s) [
  | [] ↦ none
  | b ∷ [] ↦ positive (digits_upto (2 ^ 63 - 1) 0 (b ∷ []))
  | b ∷ d ∷ bs ↦
      if eqb b b'+'
      then positive (digits_upto (2 ^ 63 - 1) 0 (d ∷ bs))
      else if eqb b b'-'
      then negative (digits_upto (2 ^ 63) 0 (d ∷ bs))
      else positive (digits_upto (2 ^ 63 - 1) 0 (b ∷ d ∷ bs))
]

parse_i64_test : parse_i64 "-3600" ≡ some (negsuc 3599)
unfolding parse_i64 as_bytes
parse_i64_test = refl
