-- ===== src/Worker/Routes.antt =====
-- crates/discord-oidc-worker/src/lib.rs: which requests reach what.
use discord_oidc.Prelude.{◌≡◌, ◌⊎◌, refl, true, false, ok, arith}
use discord_oidc.Prelude.Int.{ℤ}
use discord_oidc.Crates.{Crates}
use discord_oidc.Response.{json_no_store}
use discord_oidc.Util.{Entropy}
use discord_oidc.Admin.Access.{Presents, authorize_admin_absent}
use discord_oidc.Worker.Router.{
  Request, json_page, Platform, error_value, is_admin_path, to_response, route_admin, route,
  cache_headers,
}

module _ ⦃c : Crates⦄ {S R : Type 0} (p : Platform S R) (now : ℤ) where
  -- A request to the admin API that does not present the configured token gets the same 401, which
  -- may not be cached, whatever the configuration, the runtime and the bindings are; the store, the
  -- registry and the entropy stay as they were.
  pub route_unauthorized :
      (req : Request) (s : S) (r : R) (e : Entropy)
      → is_admin_path req.path ≡ true
      → ¬ Presents req.authorization (p.secret "OIDC_ADMIN_API_TOKEN")
      → route p now req s r e
        ≡ (ok (json_page 401 (cache_headers true) (error_value "unauthorized")), s, r, e)
  unfolding route route_admin to_response json_no_store
  route_unauthorized req s r e admin absent =
      rw
        (
          admin,
          authorize_admin_absent req.authorization (p.secret "OIDC_ADMIN_API_TOKEN") absent,
          route,
          route_admin,
        )
        refl

  -- The two halves of the program do not touch each other's state: a request to the admin API
  -- leaves the store of transactions and codes as it was, and any other request leaves the registry
  -- of clients as it was.
  route-Isolated :
      (req : Request) (s : S) (r : R) (e : Entropy)
      → let out = route p now req s r e in
        ((is_admin_path req.path ≡ true) × (out.1 ≡ s))
        ⊎ ((is_admin_path req.path ≡ false) × (out.2 ≡ r))
  unfolding route
  route-Isolated req s r e = ground arith
