-- ===== src/Jwt.antt =====
-- crates/oidc-core/src/jwt.rs: ID Tokens. The signer is the platform's.
use Prim.Native.String
use discord_oidc.Prelude.{
  ℕ, String, Option, none, some, List, [], ◌∷◌, ◌++◌, Result, ok, err, ◌>>=◌, take,
}
use discord_oidc.Prelude.Int.{ℤ}
use discord_oidc.Prelude.Text.{as_bytes}
use discord_oidc.Crates.{Crates}
use discord_oidc.Json.{Value, str, num, object, optional}
use discord_oidc.Jwk.{Jwk}
use discord_oidc.Util.{b64url_encode}

pub record IdTokenClaims : Type 0 where
  pub iss : String
  pub sub : String
  pub aud : String
  pub iat : ℤ
  pub exp : ℤ
  pub nonce : Option String
  pub at_hash : Option String

-- The derived serialisation: absent members are left out.
unfoldable pub claims_to_value : IdTokenClaims → Value
claims_to_value claims = object (
    ("iss", str claims.iss)
    ∷ ("sub", str claims.sub)
    ∷ ("aud", str claims.aud)
    ∷ ("iat", num claims.iat)
    ∷ ("exp", num claims.exp)
    ∷ (optional "nonce" str claims.nonce ++ optional "at_hash" str claims.at_hash))

module _ ⦃c : Crates⦄ where
  unfoldable pub at_hash_of : String → String
  at_hash_of access_token = b64url_encode (take 16 (c.sha256 (as_bytes access_token)))

pub data KeyError : Type 0 where
  unparseable weak_key sign_failed : KeyError

-- The trait `IdTokenSigner`.
pub record IdTokenSigner : Type 0 where
  pub kid : String
  pub public_jwk : Jwk
  pub sign : String → Result (List ℕ) KeyError

abbrev pub serialized : Option String → Result String KeyError
serialized none = err sign_failed
serialized (some text) = ok text

module _ ⦃c : Crates⦄ where
  -- Over claims as the value that they serialise to.
  unfoldable pub encode_claims : IdTokenSigner → Value → Result String KeyError
  encode_claims signer claims =
      let header =
        object (("alg", str "RS256") ∷ ("typ", str "JWT") ∷ ("kid", str signer.kid) ∷ []) in
      do
        text ← serialized (c.to_json claims)
        let input =
            String.◌++◌ (b64url_encode (as_bytes (c.value_to_string header)))
              (String.◌++◌ "." (b64url_encode (as_bytes text)))
        signature ← signer.sign input
        ok (String.◌++◌ input (String.◌++◌ "." (b64url_encode signature)))
