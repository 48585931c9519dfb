-- ===== src/Prelude/Dict/Laws.antt =====
-- What a lookup sees after each operation.
use Prim.Native.String.{String}
use mathlib.Core.Path.{◌≡◌, refl}
use mathlib.Core.Option.{none, some}
use mathlib.Core.List.{[], ◌∷◌}
use native.Mathlib.Omega.{arith}
use text.Mathlib.Text.{◌==◌}
use text.Mathlib.TextEquality.{eq_iff}
use discord_oidc.Prelude.Tests.{if◌then◌else◌}
use discord_oidc.Prelude.Dict.Defs.{Dict, empty, get, insert, remove}

module _ {ℓ} {V : Type ℓ} where
  pub get-empty : (k : String) → get {V = V} k empty ≡ none
  unfolding get
  get-empty k = refl

  pub get-insert :
      (k j : String) (v : V) (m : Dict V)
      → get j (insert k v m) ≡ (if k == j then some v else get j m)
  unfolding get insert
  get-insert k j v [] = refl
  get-insert k j v ((i, w) ∷ m) =
      ground (arith, eq_iff k j, eq_iff i k, eq_iff k i, eq_iff i j, get-insert k j v m)

  pub get-remove :
      (k j : String) (m : Dict V) → get j (remove k m) ≡ (if k == j then none else get j m)
  unfolding get remove
  get-remove k j [] = ground arith
  get-remove k j ((i, v) ∷ m) = ground (arith, get-remove k j m, eq_iff i k, eq_iff i j, eq_iff k j)

  pub ruleset dict_laws = (get-empty, get-insert, get-remove)
