-- ===== src/Authorize/Request.antt =====
-- Which requests pass the checks after the redirect URI is trusted.
use discord_oidc.Prelude.{
  String, len, ◌≤◌, ◌≡◌, ◌↔◌, refl, ap, inl, inr, Bool, true, false, Option, none, some, List, [],
  ◌∷◌, Result, ok, err, All, any, contains, length, ltb, eq_iff, arith, Bool-cases,
}
use discord_oidc.Prelude.Text.{split_whitespace}
use discord_oidc.Prelude.Dict
use discord_oidc.Pkce.{is_valid_code_challenge}
use discord_oidc.Params.{Params, single}
use discord_oidc.Authorize.{
  check_known, values_or_none, check_response_type, requested_scopes, check_method, read_challenge,
  check_lengths, check_prompt, check_max_age,
}

-- At most one value, of at most 2048 bytes.
abbrev pub IsShort : List String → Type 0
IsShort values = (length values ≤ 1) × All (λ v. len v ≤ 2048) values

abbrev pub ShortParams : Params → List String → Type 0
ShortParams params names = All (λ name. IsShort (values_or_none (Dict.get name params))) names

-- An optional text of at most 1024 bytes.
abbrev pub IsBrief : Option String → Type 0
IsBrief none = Unit
IsBrief (some s) = len s ≤ 1024

short_values_iff :
    (vs : List String) → (any (λ v. ltb 2048 (len v)) vs ≡ false) ↔ All (λ v. len v ≤ 2048) vs
short_values_iff [] = (λ e. tt, λ a. refl)
short_values_iff (v ∷ vs) = (
  λ e. (ground arith, (short_values_iff vs).0 (ground arith)),
  λ (h, a). let rest = (short_values_iff vs).1 a in ground arith,
)

pub check_known_iff :
    (params : Params) (names : List String)
    → (check_known params names ≡ ok tt) ↔ ShortParams params names
unfolding check_known
check_known_iff params [] = (λ e. tt, λ a. refl)
check_known_iff params (name ∷ names) =
    let vs = values_or_none (Dict.get name params) in
    (
      λ e. (
        (ground arith, (short_values_iff vs).0 (ground arith)),
        (check_known_iff params names).0 (ground arith),
      ),
      λ ((one, short), rest).
          ground (arith, (short_values_iff vs).1 short, (check_known_iff params names).1 rest),
    )

pub check_response_type_iff :
    (r : Result (Option String) (Unit {0}))
    → (check_response_type r ≡ ok tt) ↔ (r ≡ ok (some "code"))
unfolding check_response_type
check_response_type_iff (ok (some t)) = ground (arith, eq_iff t "code")
check_response_type_iff (ok none) = ground arith
check_response_type_iff (err u) = ground arith

pub check_method_iff :
    (r : Result (Option String) (Unit {0})) → (check_method r ≡ ok tt) ↔ (r ≡ ok (some "S256"))
unfolding check_method
check_method_iff (ok (some t)) = ground (arith, eq_iff t "S256")
check_method_iff (ok none) = ground arith
check_method_iff (err u) = ground arith

pub read_challenge_iff :
    (r : Result (Option String) (Unit {0})) (ch : String)
    → (read_challenge r ≡ ok ch) ↔ ((r ≡ ok (some ch)) × (is_valid_code_challenge ch ≡ true))
unfolding read_challenge
read_challenge_iff (ok (some t)) ch = elim (Bool-cases (is_valid_code_challenge t)) [
  | inl valid ↦ (
    λ e. let same : t ≡ ch = ground arith in (ap (λ x. ok (some x)) same, rw same at valid),
    λ (same, good). ground arith,
  )
  | inr invalid ↦
      (λ e. absurd (ground arith), λ (same, good). absurd (clash t ch same invalid good))
]
  where
    clash :
        (t ch : String)
        → ◌≡◌ {A = Result (Option String) (Unit {0})} (ok (some t)) (ok (some ch))
        → is_valid_code_challenge t ≡ false
        → is_valid_code_challenge ch ≡ true
        → ⊥
    clash t ch same bad good = let eq : t ≡ ch = ground arith in cc (rw eq at bad, good)
read_challenge_iff (ok none) ch = ground arith
read_challenge_iff (err u) ch = ground arith

pub check_lengths_iff :
    (nonce state : Option String)
    → (check_lengths nonce state ≡ ok tt) ↔ (IsBrief nonce × IsBrief state)
unfolding check_lengths
check_lengths_iff none none = ground arith
check_lengths_iff none (some s) = ground arith
check_lengths_iff (some n) none = ground arith
check_lengths_iff (some n) (some s) = ground arith

-- None of the prompts that the provider cannot satisfy is asked for.
abbrev pub IsPromptable : List String → Type 0
IsPromptable prompt =
    (contains prompt "none" ≡ false)
    × (contains prompt "login" ≡ false)
    × (contains prompt "select_account" ≡ false)

pub check_prompt_iff :
    (prompt : List String) (consent : Bool)
    → (check_prompt prompt ≡ ok consent)
      ↔ (IsPromptable prompt × (contains prompt "consent" ≡ consent))
unfolding check_prompt
check_prompt_iff [] consent = ground arith
check_prompt_iff (p ∷ ps) consent = ground arith

pub check_max_age_iff : (age : Option String) → (check_max_age age ≡ ok tt) ↔ (age ≡ none)
unfolding check_max_age
check_max_age_iff none = ground arith
check_max_age_iff (some s) = ground arith

-- The scope parameter, and what it asks for.
abbrev pub Requests : Params → List String → Type 0
Requests params requested =
    (scope : String) × (single params "scope" ≡ ok (some scope))
    × (len scope ≤ 2048)
    × (split_whitespace scope ≡ requested)
    × (contains requested "openid" ≡ true)

pub requested_scopes_iff :
    (params : Params) (requested : List String)
    → (requested_scopes params ≡ ok requested) ↔ Requests params requested
unfolding requested_scopes
requested_scopes_iff params requested = (sound (single params "scope") refl, complete)
  where
    sound :
        (r : Result (Option String) (Unit {0}))
        → single params "scope" ≡ r
        → requested_scopes params ≡ ok requested
        → Requests params requested
    sound (ok (some scope)) read e =
        let same : split_whitespace scope ≡ requested = ground arith in
        let has : contains (split_whitespace scope) "openid" ≡ true = ground arith in
        (scope, read, ground arith, same, rw same at has)
    sound (ok none) read e = absurd (ground arith)
    sound (err u) read e = absurd (ground arith)

    complete : Requests params requested → requested_scopes params ≡ ok requested
    complete (scope, read, short, same, has) =
        let has' : contains (split_whitespace scope) "openid" ≡ true = rw same has in ground arith
