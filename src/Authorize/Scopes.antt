-- ===== src/Authorize/Scopes.antt =====
-- The granted scopes.
use discord_oidc.Prelude.{
  String, ◌≡◌, refl, ◌∙◌, false, ◌&&◌, ◌||◌, List, [], ◌∷◌, ◌++◌, contains, ◌==◌, eq_iff, arith,
}
use discord_oidc.Authorize.{grant}

contains-append :
    (xs : List String) (y s : String) → contains (xs ++ y ∷ []) s ≡ (contains xs s || y == s)
contains-append [] y s = ground arith
contains-append (x ∷ xs) y s = ground (arith, contains-append xs y s)

contains-grant :
    (allowed requested granted : List String) (s : String)
    → contains (grant allowed requested granted) s
      ≡ (contains granted s || (contains requested s && contains allowed s))
unfolding grant
contains-grant allowed [] granted s = ground arith
contains-grant allowed (r ∷ requested) granted s =
    contains-grant allowed requested _ s ∙ ground (arith, contains-append granted r s, eq_iff r s)

-- No scope stands twice.
abbrev pub IsNodup : List String → Type 0
IsNodup [] = Unit
IsNodup (x ∷ xs) = (contains xs x ≡ false) × IsNodup xs

IsNodup-append :
    (xs : List String) (y : String) → IsNodup xs → contains xs y ≡ false → IsNodup (xs ++ y ∷ [])
IsNodup-append [] y d h = (refl, tt)
IsNodup-append (x ∷ xs) y (h, d) n = (
  ground (arith, contains-append xs y x, eq_iff x y, eq_iff y x),
  IsNodup-append xs y d (ground arith),
)

grant-IsNodup :
    (allowed requested granted : List String)
    → IsNodup granted
    → IsNodup (grant allowed requested granted)
unfolding grant
grant-IsNodup allowed [] granted d = d
grant-IsNodup allowed (r ∷ requested) granted d =
    grant-IsNodup allowed requested _ (ground (arith, IsNodup-append granted r d))

-- The granted scopes are the requested ones that the client may have, each once.
grant_lem :
    (allowed requested : List String)
    → IsNodup (grant allowed requested [])
      × ((s : String)
          → contains (grant allowed requested []) s ≡ (contains requested s && contains allowed s))
grant_lem allowed requested =
    (grant-IsNodup allowed requested [] tt, λ s. contains-grant allowed requested [] s)
