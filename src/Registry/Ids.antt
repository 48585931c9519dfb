-- ===== src/Registry/Ids.antt =====
-- Generated client ids of registry.rs and the test that the data plane applies to them.
use Prim.Native.String
use discord_oidc.Prelude.{String, ◌≡◌, refl, true, some, arith}
use discord_oidc.Prelude.Text.{strip_prefix}
use discord_oidc.Crates.{Crates}
use discord_oidc.Util.{Entropy, drawn, b64url_encode, fill_bytes}
use discord_oidc.Util.Tokens.{IsB64Url, length-drawn}
use discord_oidc.Registry.{generate_client_id, is_dynamic_client_id, client_id_prefix}
use text.Mathlib.TextLemmas.{nil-append, cons-append}

pub strip_prefix-append : (p s : String) → strip_prefix p (String.◌++◌ p s) ≡ some s
unfolding strip_prefix
strip_prefix-append String.[] s = rw nil-append refl
strip_prefix-append (String.◌∷◌ x p) s = rw cons-append (ground (arith, strip_prefix-append p s))

module _ ⦃c : Crates⦄ where
  client_bytes-IsB64Url : (e : Entropy) → IsB64Url 22 (b64url_encode (drawn e.bytes e.used 16))
  unfolding b64url_encode
  client_bytes-IsB64Url e = (
    omega (arith, c.len-url_safe_encode (drawn e.bytes e.used 16), length-drawn e.bytes e.used 16),
    c.url_safe_alphabet _,
  )

  -- Every generated client id passes the test that the data plane applies before it asks the
  -- dynamic registry.
  pub is_dynamic-generate_client_id :
      (e : Entropy) → is_dynamic_client_id (generate_client_id e).0 ≡ true
  unfolding generate_client_id is_dynamic_client_id fill_bytes
  is_dynamic-generate_client_id e =
      let (l, a) = client_bytes-IsB64Url e in
      ground (arith, strip_prefix-append client_id_prefix (b64url_encode (drawn e.bytes e.used 16)))
