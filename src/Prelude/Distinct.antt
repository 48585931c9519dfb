-- ===== src/Prelude/Distinct.antt =====
-- Lists of texts without repetitions, as sets of texts seen so far see them.
use Prim.Native.String.{String}
use mathlib.Core.Path.{◌≡◌, refl}
use mathlib.Core.Logic.{◌≢◌}
use mathlib.Core.Bool.{false}
use mathlib.Core.List.{List, [], ◌∷◌}
use native.Mathlib.Omega.{arith}
use text.Mathlib.TextEquality.{eq_iff}
use discord_oidc.Prelude.Lists.{All, contains}

-- No text stands twice.
abbrev pub IsNodup : List String → Type 0
IsNodup [] = Unit
IsNodup (x ∷ xs) = All (λ y. x ≢ y) xs × IsNodup xs

-- None of the texts is among those seen.
abbrev pub Unseen : List String → List String → Type 0
Unseen seen xs = All (λ x. contains seen x ≡ false) xs

pub split-Unseen :
    (seen xs : List String) (x : String)
    → Unseen (x ∷ seen) xs
    → All (λ y. x ≢ y) xs × Unseen seen xs
split-Unseen seen [] x u = (tt, tt)
split-Unseen seen (y ∷ xs) x (h, u) =
    let (fresh, unseen) = split-Unseen seen xs x u in
    ((λ e. ground (arith, eq_iff x y), fresh), (ground arith, unseen))

pub join-Unseen :
    (seen xs : List String) (x : String)
    → All (λ y. x ≢ y) xs
    → Unseen seen xs
    → Unseen (x ∷ seen) xs
join-Unseen seen [] x a u = tt
join-Unseen seen (y ∷ xs) x (n, a) (h, u) = (ground (arith, eq_iff x y), join-Unseen seen xs x a u)

pub none_seen : (xs : List String) → Unseen [] xs
none_seen [] = tt
none_seen (x ∷ xs) = (refl, none_seen xs)
