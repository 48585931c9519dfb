-- ===== src/Examples/Keys.antt =====
-- A public key.
use discord_oidc.Prelude.{String, ◌≡◌, refl, none, some, ok}
use discord_oidc.Prelude.Text.{as_bytes}
use discord_oidc.Json.{Members, no_members, member, obj, str}
use discord_oidc.Jwk.{
  Jwk, is_valid_kid, b64url_uint_bits, rsa_modulus_bits, get_str, get_member, validate_public,
}
use discord_oidc.Jwk.Public.{IsPublicKey, validate_public-IsPublicKey}
use discord_oidc.Examples.Sample.{sample_crates}

-- 258 bytes of ones.
abbrev modulus : String
modulus =
    "________________________________________________________________________________________________________________________________________________________________________________________________________________________________________________________________________________________________________________________________________________________"

abbrev key_members : Members
key_members =
    member "kty" (str "RSA")
      (member "n" (str modulus) (member "e" (str "AQAB") (member "kid" (str "k1") no_members)))

abbrev key : Jwk
key = record { kty = "RSA"; use_ = none; alg = none; kid = some "k1"; n = modulus; e = "AQAB" }

accepted : validate_public (obj key_members) ≡ ok key
unfolding validate_public get_str get_member rsa_modulus_bits b64url_uint_bits is_valid_kid
    sample_crates as_bytes
accepted = refl

validate_public-IsPublicKey_example :
    (ms : Members) × (obj key_members ≡ obj ms) × IsPublicKey ms key
validate_public-IsPublicKey_example = validate_public-IsPublicKey (obj key_members) key accepted
