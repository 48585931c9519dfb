-- ===== src/Crates/Compare.antt =====
-- Texts compared in constant time, through their bytes.
use discord_oidc.Prelude.{String, ◌≡◌, ◌↔◌, ap, Bool, true}
use discord_oidc.Prelude.Text.{as_bytes, as_bytes_injective}
use discord_oidc.Crates.{Crates}

module _ ⦃c : Crates⦄ where
  -- `s.as_bytes().ct_eq(t.as_bytes()).into()`
  unfoldable pub ct_eq_text : String → String → Bool
  ct_eq_text s t = c.ct_eq (as_bytes s) (as_bytes t)

  pub ct_eq_text_iff : (s t : String) → (ct_eq_text s t ≡ true) ↔ (s ≡ t)
  unfolding ct_eq_text
  ct_eq_text_iff s t = (
    λ h. as_bytes_injective s t ((c.ct_eq_iff (as_bytes s) (as_bytes t)).0 h),
    λ e. (c.ct_eq_iff (as_bytes s) (as_bytes t)).1 (ap as_bytes e),
  )
