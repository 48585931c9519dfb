-- ===== src/Worker/DiscordHttp.antt =====
-- crates/discord-oidc-worker/src/discord_http.rs: Discord's API over the network. Deserialisers, the
-- serialisation of a form and the network are parameters.
use Prim.Native.String
use discord_oidc.Prelude.{
  ℕ, String, ◌≡◌, ◌↔◌, refl, inl, inr, Option, none, some, List, [], ◌∷◌, Result, ok, err, ◌>>=◌,
  arith, eqb, Option-cases, Result-cases, if◌then◌else◌,
}
use discord_oidc.Config.{Config}
use discord_oidc.Discord.{
  DiscordTokenResponse, DiscordUser, DiscordMember, DiscordError, transport, http_status,
  malformed_response, DiscordApi, discord_api_base, discord_token_url,
}
use discord_oidc.Worker.Storage.{WorkerError}

pub record HttpRequest : Type 0 where
  pub method : String
  pub url : String
  pub headers : List (String × String)
  pub body : Option String

pub record HttpAnswer : Type 0 where
  pub status : ℕ
  pub text : String

-- The platform builds a request, which may fail, and sends it.
pub record Network : Type 0 where
  pub build : HttpRequest → Result HttpRequest WorkerError
  pub send : HttpRequest → Result HttpAnswer WorkerError
  pub form : List (String × String) → String
  pub parse_token : String → Option DiscordTokenResponse
  pub parse_user : String → Option DiscordUser
  pub parse_member : String → Option DiscordMember

abbrev pub to_err {ℓ} : {A : Type ℓ} → Result A WorkerError → Result A DiscordError
to_err (ok a) = ok a
to_err (err e) = err transport

abbrev pub or_malformed {ℓ} : {A : Type ℓ} → Option A → Result A DiscordError
or_malformed none = err malformed_response
or_malformed (some a) = ok a

abbrev pub or_malformed_some {ℓ} : {A : Type ℓ} → Option A → Result (Option A) DiscordError
or_malformed_some none = err malformed_response
or_malformed_some (some a) = ok (some a)

-- An answer other than 200 is an error.
unfoldable pub read_answer {ℓ} :
    {A : Type ℓ} → (String → Option A) → HttpAnswer → Result A DiscordError
read_answer parse answer =
    if eqb answer.status 200
    then or_malformed (parse answer.text)
    else err (http_status answer.status)

-- For a member, 404 is the answer that there is none.
unfoldable pub read_member :
    (String → Option DiscordMember) → HttpAnswer → Result (Option DiscordMember) DiscordError
read_member parse answer =
    if eqb answer.status 200
    then or_malformed_some (parse answer.text)
    else if eqb answer.status 404
    then ok none
    else err (http_status answer.status)

module _ (net : Network) where
  unfoldable pub exchange : HttpRequest → Result HttpAnswer DiscordError
  exchange req = do built ← to_err (net.build req); to_err (net.send built)

  unfoldable pub get : String → String → Result HttpAnswer DiscordError
  unfolding exchange
  get url access_token = exchange (record {
    method = "GET";
    url = url;
    headers =
        ("Authorization", String.◌++◌ "Bearer " access_token)
        ∷ ("Accept", "application/json")
        ∷ ("User-Agent", "discord-oidc")
        ∷ [];
    body = none;
  })

  unfoldable pub exchange_code : Config → String → String → Result DiscordTokenResponse DiscordError
  unfolding exchange read_answer
  exchange_code cfg code redirect_uri = do
    answer ← exchange (record {
      method = "POST";
      url = discord_token_url;
      headers =
          ("Content-Type", "application/x-www-form-urlencoded")
          ∷ ("Accept", "application/json")
          ∷ [];
      body = some (
          net.form (
            ("client_id", cfg.discord_client_id)
            ∷ ("client_secret", cfg.discord_client_secret)
            ∷ ("grant_type", "authorization_code")
            ∷ ("code", code)
            ∷ ("redirect_uri", redirect_uri)
            ∷ []));
    })
    read_answer net.parse_token answer

  unfoldable pub fetch_user : String → Result DiscordUser DiscordError
  unfolding get read_answer
  fetch_user access_token = do
    answer ← get (String.◌++◌ discord_api_base "/users/@me") access_token
    read_answer net.parse_user answer

  abbrev pub member_url : String → String
  member_url guild_id =
      String.◌++◌ discord_api_base
        (String.◌++◌ "/users/@me/guilds/" (String.◌++◌ guild_id "/member"))

  unfoldable pub fetch_guild_member : String → String → Result (Option DiscordMember) DiscordError
  unfolding get read_member
  fetch_guild_member access_token guild_id = do
    answer ← get (member_url guild_id) access_token
    read_member net.parse_member answer

  unfoldable pub discord_http : Config → DiscordApi
  unfolding exchange_code fetch_user fetch_guild_member
  discord_http cfg = record {
    exchange_code = exchange_code cfg;
    fetch_user = fetch_user;
    fetch_guild_member = fetch_guild_member;
  }

read_member-none :
    (parse : String → Option DiscordMember) (a : HttpAnswer)
    → read_member parse a ≡ ok none
    → a.status ≡ 404
unfolding read_member
read_member-none parse a e = elim (Option-cases (parse a.text)) [
  | inl absent ↦ ground arith
  | inr (m, present) ↦ ground arith
]

module _ (net : Network) where
  -- Discord's client says that a user is no member of the guild exactly when the request for the
  -- member was answered with status 404.
  pub fetch_guild_member_none_iff :
      (access_token guild_id : String)
      → (fetch_guild_member net access_token guild_id ≡ ok none) ↔ (
          (a : HttpAnswer) × (get net (member_url net guild_id) access_token ≡ ok a)
          × (a.status ≡ 404))
  unfolding fetch_guild_member read_member
  fetch_guild_member_none_iff access_token guild_id = (
    λ e. elim (Result-cases (get net (member_url net guild_id) access_token)) [
      | inl (a, answered) ↦
          (a, answered, read_member-none net.parse_member a (ground (arith, answered)))
      | inr (f, failed) ↦ absurd (ground arith)
    ],
    λ (a, answered, gone). rw (answered, fetch_guild_member, read_member, gone) refl,
  )
