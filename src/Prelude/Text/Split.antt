-- ===== src/Prelude/Text/Split.antt =====
-- What the methods of `str` do on texts that are put together.
use Prim.Native.Nat.{ℕ, ◌<◌}
use Prim.Native.Char.{Char, code}
use Prim.Native.String.{String, [], ◌∷◌, ◌++◌}
use mathlib.Core.Path.{◌≡◌, refl, ap₂}
use mathlib.Core.Bool.{Bool, true, false}
use mathlib.Core.Option.{some}
use mathlib.Core.List
use mathlib.Core.List.{List}
use native.Mathlib.Omega.{arith}
use text.Mathlib.TextLemmas.{nil-append, cons-append}
use text.Mathlib.TextEquality.{Char-path}
use discord_oidc.Prelude.Lists.{all}
use discord_oidc.Prelude.Text.{split, split_parts, contains_char, strip_prefix}
use discord_oidc.Prelude.Text.Utf8.{as_bytes, as_bytes-cons-all}

split_parts-whole :
    (n : ℕ) (s : String) → contains_char n s ≡ false → split_parts n s ≡ (s, List.[])
unfolding split_parts contains_char
split_parts-whole n [] e = refl
split_parts-whole n (c ∷ s) e = ground (arith, split_parts-whole n s)

split_parts-append :
    (n : ℕ) (s t : String) (c : Char)
    → contains_char n s ≡ false
    → code c ≡ n
    → split_parts n (s ++ (c ∷ t)) ≡ (s, List.◌∷◌ (split_parts n t).0 (split_parts n t).1)
unfolding split_parts contains_char
split_parts-append n [] t c e h = rw (nil-append (c ∷ t)) (ground arith)
split_parts-append n (d ∷ s) t c e h =
    rw (cons-append d s (c ∷ t)) (ground (arith, split_parts-append n s t c (ground arith) h))

-- A text without the character is its only part.
pub split-whole : (n : ℕ) (s : String) → contains_char n s ≡ false → split n s ≡ List.◌∷◌ s List.[]
unfolding split
split-whole n s e = rw (split_parts-whole n s e) refl

-- Such a text in front of the character is the first part.
pub split-append :
    (n : ℕ) (s t : String) (c : Char)
    → contains_char n s ≡ false
    → code c ≡ n
    → split n (s ++ (c ∷ t)) ≡ List.◌∷◌ s (split n t)
unfolding split
split-append n s t c e h = rw (split_parts-append n s t c e h) refl

pub strip_prefix_sound : (p s rest : String) → strip_prefix p s ≡ some rest → s ≡ p ++ rest
unfolding strip_prefix
strip_prefix_sound [] s rest e = rw (nil-append rest) (ground arith)
strip_prefix_sound (c ∷ p) [] rest e = absurd (ground arith)
strip_prefix_sound (c ∷ p) (d ∷ s) rest e =
    rw (cons-append c p rest)
      (ap₂ ◌∷◌ (Char-path d c (ground arith)) (strip_prefix_sound p s rest (ground arith)))

pub all-append :
    (p : ℕ → Bool) (xs ys : List ℕ)
    → all p xs ≡ true
    → all p ys ≡ true
    → all p (List.◌++◌ xs ys) ≡ true
all-append p List.[] ys a b = b
all-append p (List.◌∷◌ x xs) ys a b = ground (arith, all-append p xs ys)

-- A character of ASCII that no byte is does not occur.
pub contains_char_absent :
    (p : ℕ → Bool) (n : ℕ) (s : String)
    → n < 128
    → p n ≡ false
    → all p (as_bytes s) ≡ true
    → contains_char n s ≡ false
unfolding contains_char
contains_char_absent p n [] h q e = refl
contains_char_absent p n (c ∷ s) h q e =
    let (differs, rest) = as_bytes-cons-all p n c s h q e in
    rw differs (contains_char_absent p n s h q rest)
