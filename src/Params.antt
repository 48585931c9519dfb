-- ===== src/Params.antt =====
-- The parameters of a query or a form: `parse_query` and `single` of
-- crates/oidc-core/src/authorize.rs, which token.rs repeats as `parse_form` and `single`.
pub mod Grouping
use discord_oidc.Prelude.{String, Option, none, some, List, [], ◌∷◌, ◌++◌, Result, ok, err}
use discord_oidc.Prelude.Dict
use discord_oidc.Prelude.Dict.{Dict}
use discord_oidc.Prelude.Text.{as_bytes}
use discord_oidc.Crates.{Crates}

abbrev pub Params : Type 0
Params = Dict (List String)

abbrev pub or_default : Option (List String) → List String
or_default none = []
or_default (some vs) = vs

-- `entry(k).or_default().push(v)`.
unfoldable pub push : String → String → Params → Params
push k v params = Dict.insert k (or_default (Dict.get k params) ++ v ∷ []) params

unfoldable pub group : List (String × String) → Params → Params
unfolding push
group [] params = params
group ((k, v) ∷ pairs) params = group pairs (push k v params)

module _ ⦃c : Crates⦄ where
  unfoldable pub parse_query : String → Params
  unfolding group
  parse_query query = group (c.form_parse (as_bytes query)) Dict.empty

-- The value of a list that should have one: `err` for several.
abbrev pub only : Option (List String) → Result (Option String) (Unit {0})
only none = ok none
only (some []) = err tt
only (some (v ∷ [])) = ok (some v)
only (some (v ∷ w ∷ vs)) = err tt

unfoldable pub single : Params → String → Result (Option String) (Unit {0})
single params name = only (Dict.get name params)

-- `.ok().flatten()`.
abbrev pub value_or_none : Result (Option String) (Unit {0}) → Option String
value_or_none (ok o) = o
value_or_none (err e) = none
