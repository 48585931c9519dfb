-- ===== src/Params/Grouping.antt =====
-- What the grouped parameters hold, in terms of the pairs that were parsed.
use discord_oidc.Prelude.{
  String, ◌≡◌, refl, ap, ◌∙◌, Option, none, some, List, [], ◌∷◌, ◌++◌, ◌==◌, eq_iff, arith,
  if◌then◌else◌,
}
use mathlib.Core.List.{append_assoc}
use discord_oidc.Prelude.Dict
use discord_oidc.Prelude.Dict.{get-insert, get-empty}
use discord_oidc.Prelude.Text.{as_bytes}
use discord_oidc.Crates.{Crates}
use discord_oidc.Params.{Params, push, group, parse_query, single, only, or_default}

-- The values that the pairs give a name, in order.
abbrev pub values_of : String → List (String × String) → List String
values_of name [] = []
values_of name ((k, v) ∷ pairs) =
    let rest = values_of name pairs in if k == name then v ∷ rest else rest

-- A name with no value has no entry.
abbrev pub entry : List String → Option (List String)
entry [] = none
entry (v ∷ vs) = some (v ∷ vs)

abbrev added : Option (List String) → List String → Option (List String)
added held [] = held
added held (v ∷ vs) = some (or_default held ++ v ∷ vs)

added_step :
    (held : Option (List String)) (v : String) (vs : List String)
    → added (some (or_default held ++ v ∷ [])) vs ≡ added held (v ∷ vs)
added_step held v [] = refl
added_step held v (w ∷ vs) = ap some (append_assoc (or_default held) (v ∷ []) (w ∷ vs))

get-group :
    (name : String) (pairs : List (String × String)) (params : Params)
    → Dict.get name (group pairs params) ≡ added (Dict.get name params) (values_of name pairs)
unfolding group
get-group name [] params = refl
get-group name ((k, v) ∷ pairs) params =
    get-group name pairs (push k v params)
    ∙ ground (
      arith,
      get-insert k name (or_default (Dict.get k params) ++ v ∷ []) params,
      eq_iff k name,
      added_step (Dict.get name params) v (values_of name pairs),
    )

added-none : (vs : List String) → added none vs ≡ entry vs
added-none [] = refl
added-none (v ∷ vs) = refl

module _ ⦃c : Crates⦄ where
  -- The pairs of a query.
  abbrev pub pairs_of : String → List (String × String)
  pairs_of query = c.form_parse (as_bytes query)

  -- A parameter of a query is single exactly as the parsed pairs say: absent without a pair of that
  -- name, the value of the one pair, and an error for two or more.
  single-parse_query :
      (query name : String)
      → single (parse_query query) name ≡ only (entry (values_of name (pairs_of query)))
  unfolding single parse_query Dict.get
  single-parse_query query name =
      ap only (get-group name (pairs_of query) [] ∙ added-none (values_of name (pairs_of query)))
