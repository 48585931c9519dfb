-- ===== src/Jwk/Public.antt =====
-- Which keys are accepted as public.
use discord_oidc.Prelude.{
  ℕ, String, ◌≤◌, ◌≡◌, refl, Bool, true, false, not, Option, none, some, ok, >>=-eq-ok, any,
  is_some, ltb, eq_iff, arith,
}
use discord_oidc.Crates.{Crates}
use discord_oidc.Json.{Value, Members, obj}
use discord_oidc.Jwk.{
  Jwk, JwkError, private_fields, is_valid_kid, b64url_uint_bits, rsa_modulus_bits, get_member,
  get_str, ok_or, none_or, filter_kid, is_rsa, require, validate_members, validate_public,
}

require_sound : (b : Bool) (e : JwkError) (u : Unit {0}) → require b e ≡ ok u → b ≡ true
require_sound true e u h = refl
require_sound false e u h = absurd (ground arith)

ok_or_sound {ℓ} : {A : Type ℓ} (o : Option A) (e : JwkError) (a : A) → ok_or o e ≡ ok a → o ≡ some a
ok_or_sound none e a h = absurd (ground arith)
ok_or_sound (some x) e a h = ground arith

filter_kid_sound :
    (o : Option String) (k : String)
    → filter_kid o ≡ some k
    → (o ≡ some k) × (is_valid_kid k ≡ true)
filter_kid_sound none k h = absurd (ground arith)
filter_kid_sound (some j) k h = ground arith

is_rsa_sound : (o : Option String) → is_rsa o ≡ true → o ≡ some "RSA"
is_rsa_sound none h = absurd (ground arith)
is_rsa_sound (some t) h = ground (arith, eq_iff t "RSA")

module _ ⦃c : Crates⦄ where
  -- What an accepted key satisfies.
  pub record IsPublicKey (ms : Members) (k : Jwk) : Type 0 where
    pub no_private : any (λ f. is_some (get_member f ms)) private_fields ≡ false
    pub rsa : get_str ms "kty" ≡ some "RSA"
    pub modulus : get_str ms "n" ≡ some k.n
    pub exponent : get_str ms "e" ≡ some k.e
    pub bits : ℕ
    pub modulus_bits : rsa_modulus_bits k.n ≡ some bits
    pub strong : 2048 ≤ bits
    pub exponent_decodes : is_some (b64url_uint_bits k.e) ≡ true
    pub algorithm : none_or k.alg "RS256" ≡ true
    pub usage : none_or k.use_ "sig" ≡ true
    pub key_id : String
    pub names_key : get_str ms "kid" ≡ some key_id
    pub valid_key_id : is_valid_kid key_id ≡ true
    pub kid : k.kid ≡ some key_id
    pub kty : k.kty ≡ "RSA"

  members_sound : (ms : Members) (k : Jwk) → validate_members ms ≡ ok k → IsPublicKey ms k
  unfolding validate_members
  members_sound ms k h =
      let (_, clean, h₁) =
        >>=-eq-ok
          (require (not (any (λ f. is_some (get_member f ms)) private_fields))
            JwkError.private_material)
          _ h in
      let (_, typed, h₂) =
        >>=-eq-ok (require (is_rsa (get_str ms "kty")) JwkError.not_rsa_public) _ h₁ in
      let (n, has_n, h₃) = >>=-eq-ok (ok_or (get_str ms "n") JwkError.not_rsa_public) _ h₂ in
      let (e, has_e, h₄) = >>=-eq-ok (ok_or (get_str ms "e") JwkError.not_rsa_public) _ h₃ in
      let (size, sized, h₅) =
        >>=-eq-ok (ok_or (rsa_modulus_bits n) JwkError.invalid_key_material) _ h₄ in
      let (_, large, h₆) = >>=-eq-ok (require (not (ltb size 2048)) JwkError.weak_key) _ h₅ in
      let (_, decodes, h₇) =
        >>=-eq-ok (require (is_some (b64url_uint_bits e)) JwkError.invalid_key_material) _ h₆ in
      let (_, signs, h₈) =
        >>=-eq-ok (require (none_or (get_str ms "alg") "RS256") JwkError.unsupported_alg_or_use) _
          h₇ in
      let (_, used, h₉) =
        >>=-eq-ok (require (none_or (get_str ms "use") "sig") JwkError.unsupported_alg_or_use) _
          h₈ in
      let (id, named, h₁₀) =
        >>=-eq-ok (ok_or (filter_kid (get_str ms "kid")) JwkError.invalid_kid) _ h₉ in
      let (given, valid) = filter_kid_sound (get_str ms "kid") id (ok_or_sound _ _ id named) in
      let cleaned = require_sound _ _ tt clean in
      let sized_ok = require_sound _ _ tt large in
      let same_n : n ≡ k.n = ground arith in
      let same_e : e ≡ k.e = ground arith in
      let same_alg : get_str ms "alg" ≡ k.alg = ground arith in
      let same_use : get_str ms "use" ≡ k.use_ = ground arith in
      record {
        no_private = ground arith;
        rsa = is_rsa_sound (get_str ms "kty") (require_sound _ _ tt typed);
        modulus = rw same_n at (ok_or_sound (get_str ms "n") _ n has_n);
        exponent = rw same_e at (ok_or_sound (get_str ms "e") _ e has_e);
        bits = size;
        modulus_bits = rw same_n at (ok_or_sound (rsa_modulus_bits n) _ size sized);
        strong = ground arith;
        exponent_decodes = rw same_e at (require_sound (is_some (b64url_uint_bits e)) _ tt decodes);
        algorithm = rw (← same_alg) (require_sound (none_or (get_str ms "alg") "RS256") _ tt signs);
        usage = rw (← same_use) (require_sound (none_or (get_str ms "use") "sig") _ tt used);
        key_id = id;
        names_key = given;
        valid_key_id = valid;
        kid = ground arith;
        kty = ground arith;
      }

  -- A key that is accepted came from a JSON object without any private RSA member; it is an RSA key
  -- with a modulus of at least 2048 bits, an exponent that decodes, `RS256` and `sig` where they
  -- are given as texts, and a valid key id.
  pub validate_public-IsPublicKey :
      (v : Value) (k : Jwk)
      → validate_public v ≡ ok k
      → (ms : Members) × (v ≡ obj ms) × IsPublicKey ms k
  unfolding validate_public
  validate_public-IsPublicKey (obj ms) k h = (ms, refl, members_sound ms k h)
  validate_public-IsPublicKey v k h = absurd (ground arith)
