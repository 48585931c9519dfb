-- ===== src/Examples/Sample.antt =====
-- The third-party crates instantiated by small concrete functions, with their laws: a digest that
-- pads or cuts to 32 bytes, base64url itself, and parsers for queries and URLs of ASCII text.
use Prim.Native.Char.{Char, char, IsScalar}
use Prim.Native.String
use discord_oidc.Prelude.{
  ℕ, zero, suc, ◌+◌, ◌-◌, ◌*◌, ◌/◌, ◌%◌, String, len, ◌≡◌, ◌∙◌, ◌↔◌, refl, Bool, true, false, ◌&&◌,
  Option, none, some, List, [], ◌∷◌, map, length, all, eqb, ltb, leb, arith, if◌then◌else◌,
}
use discord_oidc.Prelude.Text.{
  as_bytes, as_bytes-cons_ascii, as_bytes_empty, len-cons_ascii, split, split_once, strip_prefix,
}
use discord_oidc.Crates.{Crates, Url, is_b64url_byte}

pub ascii-IsScalar : (n : ℕ) → IsScalar (n % 128)
ascii-IsScalar n = ground arith

abbrev pub ascii : ℕ → Char
ascii n = char (n % 128) (ascii-IsScalar n)

-- The character of six bits.
abbrev sextet_code : ℕ → ℕ
sextet_code n =
    if ltb n 26
    then 65 + n
    else if ltb n 52
    then 71 + n
    else if ltb n 62
    then n - 4
    else if eqb n 62
    then 45
    else 95

abbrev sextet : ℕ → Char
sextet n = ascii (sextet_code n)

-- The groups of six bits of bytes, and their text.
abbrev sextets : List ℕ → List ℕ
sextets [] = []
sextets (a ∷ []) = (a / 4) ∷ (a % 4 * 16) ∷ []
sextets (a ∷ b ∷ []) = (a / 4) ∷ (a % 4 * 16 + b / 16) ∷ (b % 16 * 4) ∷ []
sextets (a ∷ b ∷ d ∷ bs) =
    (a / 4) ∷ (a % 4 * 16 + b / 16) ∷ (b % 16 * 4 + d / 64) ∷ (d % 64) ∷ sextets bs

abbrev chars : List ℕ → String
chars [] = ""
chars (n ∷ ns) = String.◌∷◌ (sextet n) (chars ns)

abbrev encode : List ℕ → String
encode bs = chars (sextets bs)

len-chars : (ns : List ℕ) → len (chars ns) ≡ length ns
len-chars [] = refl
len-chars (n ∷ ns) =
    omega (arith, len-cons_ascii (sextet n) (chars ns) (ground arith), len-chars ns)

length-sextets : (bs : List ℕ) → length (sextets bs) ≡ (4 * length bs + 2) / 3
length-sextets [] = refl
length-sextets (a ∷ []) = ground arith
length-sextets (a ∷ b ∷ []) = ground arith
length-sextets (a ∷ b ∷ d ∷ bs) = omega (arith, length-sextets bs)

pub len-encode : (bs : List ℕ) → len (encode bs) ≡ (4 * length bs + 2) / 3
len-encode bs = len-chars (sextets bs) ∙ length-sextets bs

alphabet-sextet : (n : ℕ) → is_b64url_byte (sextet_code n % 128) ≡ true
alphabet-sextet n = ground arith

alphabet-chars : (ns : List ℕ) → all is_b64url_byte (as_bytes (chars ns)) ≡ true
alphabet-chars [] = rw as_bytes_empty refl
alphabet-chars (n ∷ ns) =
    rw (as_bytes-cons_ascii (sextet n) (chars ns) (ground arith))
      (rw (alphabet-sextet n) (alphabet-chars ns))

pub alphabet-encode : (bs : List ℕ) → all is_b64url_byte (as_bytes (encode bs)) ≡ true
alphabet-encode bs = alphabet-chars (sextets bs)

-- The six bits of a character, or 64 for one outside the alphabet; and the bytes of such groups.
abbrev sextet_of : ℕ → ℕ
sextet_of b =
    if leb 65 b && leb b 90
    then b - 65
    else if leb 97 b && leb b 122
    then b - 71
    else if leb 48 b && leb b 57
    then b + 4
    else if eqb b 45
    then 62
    else if eqb b 95
    then 63
    else 64

abbrev bytes_of : List ℕ → Option (List ℕ)
bytes_of [] = some []
bytes_of (a ∷ []) = none
bytes_of (a ∷ b ∷ []) = if eqb (b % 16) 0 then some ((a * 4 + b / 16) ∷ []) else none
bytes_of (a ∷ b ∷ d ∷ []) =
    if eqb (d % 4) 0 then some ((a * 4 + b / 16) ∷ (b % 16 * 16 + d / 4) ∷ []) else none
bytes_of (a ∷ b ∷ d ∷ f ∷ rest) =
    followed (a * 4 + b / 16) (b % 16 * 16 + d / 4) (d % 4 * 64 + f) (bytes_of rest)
  where
    followed : ℕ → ℕ → ℕ → Option (List ℕ) → Option (List ℕ)
    followed x y z none = none
    followed x y z (some bs) = some (x ∷ y ∷ z ∷ bs)

pub decode : String → Option (List ℕ)
decode s =
    let groups = map sextet_of (as_bytes s) in
    if all (λ n. ltb n 64) groups then bytes_of groups else none

pub digest : ℕ → List ℕ → List ℕ
digest zero bs = []
digest (suc n) [] = 0 ∷ digest n []
digest (suc n) (b ∷ bs) = b ∷ digest n bs

pub length-digest : (n : ℕ) (bs : List ℕ) → length (digest n bs) ≡ n
unfolding digest
length-digest zero bs = refl
length-digest (suc n) [] = ground (arith, length-digest n [])
length-digest (suc n) (b ∷ bs) = ground (arith, length-digest n bs)

pub eq_bytes : List ℕ → List ℕ → Bool
eq_bytes [] [] = true
eq_bytes (x ∷ xs) (y ∷ ys) = eqb x y && eq_bytes xs ys
eq_bytes _ _ = false

pub eq_bytes_iff : (xs ys : List ℕ) → (eq_bytes xs ys ≡ true) ↔ (xs ≡ ys)
unfolding eq_bytes
eq_bytes_iff [] [] = ground arith
eq_bytes_iff [] (y ∷ ys) = ground arith
eq_bytes_iff (x ∷ xs) [] = ground arith
eq_bytes_iff (x ∷ xs) (y ∷ ys) = ground (arith, eq_bytes_iff xs ys)

-- Texts of bytes, and the pairs of a query.
abbrev text_of : List ℕ → String
text_of [] = ""
text_of (b ∷ bs) = String.◌∷◌ (ascii b) (text_of bs)

abbrev pair_of : Option (String × String) → String → String × String
pair_of none part = (part, "")
pair_of (some p) part = p

pub query_pairs : List ℕ → List (String × String)
query_pairs bs = map (λ part. pair_of (split_once b'=' part) part) (split b'&' (text_of bs))

-- The query of a URL with pairs added.
pub added_pairs : String → List (String × String) → String
added_pairs uri [] = uri
added_pairs uri ((k, v) ∷ pairs) =
    added_pairs (String.◌++◌ uri (String.◌++◌ "&" (String.◌++◌ k (String.◌++◌ "=" v)))) pairs

-- An https URL, whatever follows.
abbrev https_url : Option String → Option Url
https_url none = none
https_url (some rest) = some (record {
  scheme = "https";
  username = "";
  password = none;
  host_str = some rest;
  path = "/";
  query = none;
  fragment = none;
})

instance unfoldable pub sample_crates : Crates
unfolding decode digest eq_bytes query_pairs added_pairs
sample_crates = record {
  sha256 = digest 32;
  length-sha256 = length-digest 32;
  url_safe_encode = encode;
  len-url_safe_encode = len-encode;
  url_safe_alphabet = alphabet-encode;
  url_safe_decode = decode;
  standard_decode = decode;
  ct_eq = eq_bytes;
  ct_eq_iff = eq_bytes_iff;
  url_parse = λ uri. https_url (strip_prefix "https://" uri);
  extend_pairs = added_pairs;
  form_parse = query_pairs;
  percent_decode_utf8 = λ bs. some (text_of bs);
  to_json = λ v. some "claims";
  value_to_string = λ v. "header";
  from_json = λ s. none;
}
