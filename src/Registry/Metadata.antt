-- ===== src/Registry/Metadata.antt =====
-- Which client metadata is accepted.
use discord_oidc.Prelude.{
  String, len, ◌≤◌, ◌≡◌, ◌≢◌, ◌↔◌, refl, ap, true, false, List, [], ◌∷◌, ok, All, length, arith,
}
use discord_oidc.Prelude.Text.{is_empty_text, trim}
use discord_oidc.Prelude.Distinct.{IsNodup, Unseen, split-Unseen, join-Unseen, none_seen}
use discord_oidc.Crates.{Crates}
use discord_oidc.Client.{is_valid_redirect_uri}
use discord_oidc.Registry.{ClientMetadata, check_uris, validate_metadata, is_snowflake}

module _ ⦃c : Crates⦄ where
  abbrev pub AllValid : List String → Type 0
  AllValid uris = All (λ u. is_valid_redirect_uri u ≡ true) uris

  check_uris_sound :
      (seen uris : List String)
      → check_uris seen uris ≡ ok tt
      → AllValid uris × IsNodup uris × Unseen seen uris
  unfolding check_uris
  check_uris_sound seen [] e = (tt, tt, tt)
  check_uris_sound seen (u ∷ us) e =
      let (valid, distinct, unseen) = check_uris_sound (u ∷ seen) us (ground arith) in
      let (fresh, rest) = split-Unseen seen us u unseen in
      ((ground arith, valid), (fresh, distinct), (ground arith, rest))

  check_uris_complete :
      (seen uris : List String)
      → AllValid uris
      → IsNodup uris
      → Unseen seen uris
      → check_uris seen uris ≡ ok tt
  unfolding check_uris
  check_uris_complete seen [] v d u = refl
  check_uris_complete seen (x ∷ us) (v, vs) (a, d) (u, un) =
      ground (arith, check_uris_complete (x ∷ seen) us vs d (join-Unseen seen us x a un))

  -- What accepted metadata satisfies.
  pub record IsValidMetadata (m : ClientMetadata) : Type 0 where
    pub name_present : m.display_name ≢ ""
    pub name_short : len m.display_name ≤ 128
    pub owner : is_snowflake m.owner_discord_user_id ≡ true
    pub some_uri : m.redirect_uris ≢ []
    pub few_uris : length m.redirect_uris ≤ 16
    pub uris_valid : AllValid m.redirect_uris
    pub uris_distinct : IsNodup m.redirect_uris

  abbrev pub metadata_of : String → String → List String → ClientMetadata
  metadata_of shown owner uris = record {
    display_name = trim shown;
    owner_discord_user_id = owner;
    redirect_uris = uris;
  }

  text_present : (s : String) → s ≢ "" → is_empty_text s ≡ false
  text_present String.[] h = absurd (h refl)
  text_present (String.◌∷◌ x s) h = refl

  validate_metadata_result :
      (shown owner : String) (uris : List String) (m : ClientMetadata)
      → validate_metadata shown owner uris ≡ ok m
      → metadata_of shown owner uris ≡ m
  unfolding validate_metadata
  validate_metadata_result shown owner uris m e = ground arith

  validate_metadata_sound :
      (shown owner : String) (uris : List String) (m : ClientMetadata)
      → validate_metadata shown owner uris ≡ ok m
      → IsValidMetadata (metadata_of shown owner uris)
  unfolding validate_metadata
  validate_metadata_sound shown owner uris m e =
      let checked : check_uris [] uris ≡ ok tt = ground arith in
      let (valid, distinct, _) = check_uris_sound [] uris checked in
      record {
        name_present = λ absent. ground (arith, ap is_empty_text absent);
        name_short = ground arith;
        owner = ground arith;
        some_uri = ground arith;
        few_uris = ground arith;
        uris_valid = valid;
        uris_distinct = distinct;
      }

  validate_metadata_complete :
      (shown owner : String) (uris : List String)
      → IsValidMetadata (metadata_of shown owner uris)
      → validate_metadata shown owner uris ≡ ok (metadata_of shown owner uris)
  unfolding validate_metadata
  validate_metadata_complete shown owner uris v = ground (
    arith,
    text_present (trim shown) v.name_present,
    check_uris_complete [] uris v.uris_valid v.uris_distinct (none_seen uris),
  )

  -- Metadata is accepted exactly when the trimmed name has 1 to 128 bytes, the owner is a snowflake
  -- and there are 1 to 16 distinct valid redirect URIs; what is returned is the input with the name
  -- trimmed.
  pub validate_metadata_iff :
      (shown owner : String) (uris : List String) (m : ClientMetadata)
      → (validate_metadata shown owner uris ≡ ok m)
        ↔ ((metadata_of shown owner uris ≡ m) × IsValidMetadata (metadata_of shown owner uris))
  validate_metadata_iff shown owner uris m = (
    λ e. (
      validate_metadata_result shown owner uris m e,
      validate_metadata_sound shown owner uris m e,
    ),
    λ (same, v). rw (← same) (validate_metadata_complete shown owner uris v),
  )
