-- ===== src/Json.antt =====
-- JSON values as `serde_json` represents them, and the forms that `json!` builds.
use discord_oidc.Prelude.{String, Bool, List, [], ◌∷◌, Option, none, some, map}
use discord_oidc.Prelude.Int.{ℤ}

mutual
  pub data Value : Type 0 where
    null : Value
    bool : Bool → Value
    num : ℤ → Value
    str : String → Value
    arr : Elements → Value
    obj : Members → Value

  pub data Elements : Type 0 where
    no_elements : Elements
    element : Value → Elements → Elements

  pub data Members : Type 0 where
    no_members : Members
    member : String → Value → Members → Members

abbrev elements : List Value → Elements
elements [] = no_elements
elements (v ∷ vs) = element v (elements vs)

abbrev members : List (String × Value) → Members
members [] = no_members
members ((k, v) ∷ vs) = member k v (members vs)

-- `json!([…])` and `json!({…})`.
abbrev pub array : List Value → Value
array vs = arr (elements vs)

abbrev pub object : List (String × Value) → Value
object vs = obj (members vs)

abbrev pub strings : List String → Value
strings ss = array (map str ss)

-- A member that is left out when it is absent (`skip_serializing_if`).
abbrev pub optional {ℓ} : {A : Type ℓ} → String → (A → Value) → Option A → List (String × Value)
optional name to_value none = []
optional name to_value (some a) = (name, to_value a) ∷ []
