-- ===== src/Prelude/Text/Decode.antt =====
-- `String::from_utf8`: a byte at a time, with the bytes that a sequence still needs, the bits read
-- of it, and the least code point of its length, so that overlong forms are refused.
use Prim.Native.Nat.{ℕ, zero, suc, ◌+◌, ◌-◌, ◌*◌}
use Prim.Native.Char.{Char, char, IsScalar}
use Prim.Native.String.{String, [], ◌∷◌}
use mathlib.Core.Path.{◌≡◌, refl}
use mathlib.Core.Bool.{Bool, true, false, ◌&&◌, ◌||◌}
use mathlib.Core.Option.{Option, none, some}
use mathlib.Core.List.{List}
use native.Mathlib.Omega.{arith}
use discord_oidc.Prelude.Tests.{ltb, leb, eqb, if◌then◌else◌}

abbrev is_scalar : ℕ → Bool
is_scalar n = ltb n 0xd800 || (ltb 0xdfff n && ltb n 0x110000)

pub is_scalar-IsScalar : (n : ℕ) → is_scalar n ≡ true → IsScalar n
is_scalar-IsScalar n h = ground arith

abbrev char_if : (b : Bool) (n : ℕ) → is_scalar n ≡ b → Option Char
char_if true n h = some (char n (is_scalar-IsScalar n h))
char_if false n h = none

-- `char::from_u32`
abbrev pub from_u32 : ℕ → Option Char
from_u32 n = char_if (is_scalar n) n refl

pub record Pending : Type 0 where
  pub need : ℕ
  pub bits : ℕ
  pub least : ℕ

pub data Step : Type 0 where
  emit : Char → Step
  wait : Pending → Step
  reject : Step

emit_valid : Option Char → Step
emit_valid none = reject
emit_valid (some c) = emit c

-- The first byte of a sequence, and a later one.
lead : ℕ → Step
unfolding emit_valid
lead b =
    if ltb b 0x80
    then emit_valid (from_u32 b)
    else if leb 0xc0 b && ltb b 0xe0
    then wait (record { need = 1; bits = b - 0xc0; least = 0x80 })
    else if leb 0xe0 b && ltb b 0xf0
    then wait (record { need = 2; bits = b - 0xe0; least = 0x800 })
    else if leb 0xf0 b && ltb b 0xf8
    then wait (record { need = 3; bits = b - 0xf0; least = 0x10000 })
    else reject

follow : ℕ → Pending → ℕ → Step
unfolding emit_valid
follow left p b =
    let bits = p.bits * 64 + (b - 0x80) in
    if leb 0x80 b && ltb b 0xc0
    then (if eqb left 0
        then (if leb p.least bits then emit_valid (from_u32 bits) else reject)
        else wait (record { need = left; bits = bits; least = p.least }))
    else reject

step : Pending → ℕ → Step
unfolding lead follow
step p b = elim p.need [ zero ↦ lead b | suc left ↦ follow left p b ]

fresh : Pending
fresh = record { need = 0; bits = 0; least = 0 }

prepend : Char → Option String → Option String
prepend c none = none
prepend c (some s) = some (c ∷ s)

decode : Pending → List ℕ → Option String
unfolding step fresh prepend
decode p List.[] = if eqb p.need 0 then some [] else none
decode p (List.◌∷◌ b bs) = elim (step p b) [
  | emit c ↦ prepend c (decode fresh bs)
  | wait q ↦ decode q bs
  | reject ↦ none
]

unfoldable pub from_utf8 : List ℕ → Option String
unfolding decode fresh
from_utf8 bs = decode fresh bs

from_utf8_test : from_utf8 (List.◌∷◌ 0x61 (List.◌∷◌ 0xc3 (List.◌∷◌ 0xa9 List.[]))) ≡ some "aé"
unfolding from_utf8
from_utf8_test = refl

overlong_test : from_utf8 (List.◌∷◌ 0xc0 (List.◌∷◌ 0x80 List.[])) ≡ none
unfolding from_utf8
overlong_test = refl
