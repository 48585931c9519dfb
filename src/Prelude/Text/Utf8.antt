-- ===== src/Prelude/Text/Utf8.antt =====
-- `str::as_bytes`: the UTF-8 of a text, and the lemmas on it.
use Prim.Native.Nat.{ℕ, ◌+◌, ◌/◌, ◌%◌, ◌<◌}
use Prim.Native.Char.{Char, char, code, len_utf8, len_utf8_def}
use Prim.Native.String.{String, [], ◌∷◌, len}
use Prim.Native.String.len
use Prim.Native.String
use mathlib.Core.Bool.{Bool, true, false}
use text.Mathlib.TextLemmas.{nil-append, cons-append}
use mathlib.Core.List
use discord_oidc.Prelude.Lists.{all}
use mathlib.Core.Path.{◌≡◌, refl, sym, ap, ap₂, ◌∙◌}
use mathlib.Core.List.{List}
use native.Mathlib.Omega.{arith}
use text.Mathlib.TextEquality.{Char-path}
use discord_oidc.Prelude.Tests.{eqb, ltb, if◌then◌else◌}

-- The bytes of one character in front of others.
utf8 : ℕ → List ℕ → List ℕ
utf8 n bs =
    if ltb n 0x80
    then List.◌∷◌ n bs
    else if ltb n 0x800
    then List.◌∷◌ (0xc0 + n / 64) (List.◌∷◌ (0x80 + n % 64) bs)
    else if ltb n 0x10000
    then List.◌∷◌ (0xe0 + n / 4096) (List.◌∷◌ (0x80 + n / 64 % 64) (List.◌∷◌ (0x80 + n % 64) bs))
    else List.◌∷◌ (0xf0 + n / 262144) (
        List.◌∷◌ (0x80 + n / 4096 % 64)
          (List.◌∷◌ (0x80 + n / 64 % 64) (List.◌∷◌ (0x80 + n % 64) bs)))

unfoldable pub as_bytes : String → List ℕ
unfolding utf8
as_bytes [] = List.[]
as_bytes (c ∷ s) = utf8 (code c) (as_bytes s)

pub as_bytes_empty : as_bytes [] ≡ List.[]
unfolding as_bytes
as_bytes_empty = refl

-- A character of ASCII is one byte.
pub as_bytes-cons_ascii :
    (c : Char) (s : String) → code c < 128 → as_bytes (c ∷ s) ≡ List.◌∷◌ (code c) (as_bytes s)
unfolding as_bytes utf8
as_bytes-cons_ascii c s h = ground arith

pub len-cons_ascii : (c : Char) (s : String) → code c < 128 → len (c ∷ s) ≡ 1 + len s
len-cons_ascii c s h =
    let one : len_utf8 c ≡ 1 = rw (len_utf8_def c) (ground arith) in
    rw (len.cons c s) (ground arith)

code-lt : (c : Char) → code c < 0x110000
code-lt (char n p) = ground arith

utf8_injective :
    (m n : ℕ) (xs ys : List ℕ)
    → m < 0x110000
    → n < 0x110000
    → utf8 m xs ≡ utf8 n ys
    → (m ≡ n) × (xs ≡ ys)
unfolding utf8
utf8_injective m n xs ys hm hn e = ground arith

utf8-ne-nil : (n : ℕ) (bs : List ℕ) → utf8 n bs ≡ List.[] → ⊥
unfolding utf8
utf8-ne-nil n bs e = ground arith

-- Equal bytes are equal texts.
pub as_bytes_injective : (s t : String) → as_bytes s ≡ as_bytes t → s ≡ t
unfolding as_bytes
as_bytes_injective [] [] e = refl
as_bytes_injective [] (d ∷ t) e = absurd (utf8-ne-nil (code d) (as_bytes t) (sym e))
as_bytes_injective (c ∷ s) [] e = absurd (utf8-ne-nil (code c) (as_bytes s) e)
as_bytes_injective (c ∷ s) (d ∷ t) e =
    let (same, rest) =
      utf8_injective (code c) (code d) (as_bytes s) (as_bytes t) (code-lt c) (code-lt d) e in
    ap₂ ◌∷◌ (Char-path c d same) (as_bytes_injective s t rest)

utf8-append : (n : ℕ) (xs ys : List ℕ) → utf8 n (List.◌++◌ xs ys) ≡ List.◌++◌ (utf8 n xs) ys
unfolding utf8
utf8-append n xs ys = ground arith

pub as_bytes-append :
    (s t : String) → as_bytes (String.◌++◌ s t) ≡ List.◌++◌ (as_bytes s) (as_bytes t)
unfolding as_bytes
as_bytes-append [] t = rw (nil-append t) refl
as_bytes-append (c ∷ s) t =
    rw (cons-append c s t)
      (ap (utf8 (code c)) (as_bytes-append s t) ∙ utf8-append (code c) (as_bytes s) (as_bytes t))

utf8-all :
    (p : ℕ → Bool) (n m : ℕ) (bs : List ℕ)
    → n < 128
    → p n ≡ false
    → all p (utf8 m bs) ≡ true
    → (eqb m n ≡ false) × (all p bs ≡ true)
unfolding utf8
utf8-all p n m bs h q e = ground arith

pub as_bytes-cons-all :
    (p : ℕ → Bool) (n : ℕ) (c : Char) (s : String)
    → n < 128
    → p n ≡ false
    → all p (as_bytes (c ∷ s)) ≡ true
    → (eqb (code c) n ≡ false) × (all p (as_bytes s) ≡ true)
unfolding as_bytes
as_bytes-cons-all p n c s h q e = utf8-all p n (code c) (as_bytes s) h q e
