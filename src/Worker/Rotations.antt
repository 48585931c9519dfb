-- ===== src/Worker/Rotations.antt =====
-- crates/discord-oidc-worker/src/durable.rs: the rotation of a secret, and the reading of a
-- record.
use discord_oidc.Prelude.{
  String, ◌≡◌, refl, sym, ap, subst, ◌∙◌, inl, inr, Option, none, some, Result, ok, err,
  ok-injective, arith, eq_iff, eq_refl, ◌==◌, Result-cases, Bool-cases,
}
use discord_oidc.Prelude.Int.{ℤ}
use discord_oidc.Registry
use discord_oidc.Registry.{DynamicClientRecord, NoSecret}
use discord_oidc.Registry.Memory.Effect.{on_id}
use discord_oidc.Worker.Storage.{Storage, IsStorage, and_then, and_then_state, and_then_ok}
use discord_oidc.Worker.ClientRegistryState.{
  client_key, Response, json_ok, rotation, RotateSecretReply, rotated, get_record, record_reply,
  settle_rotation, rotate_found, rotate,
}
use discord_oidc.Worker.Records.{
  Applied, Became, Makes, after_rotation, on_id-Makes, on_id_absent, put-Applied, put-Became,
  rotation_reply, settled,
}

module _ {S : Type 0} (storage : Storage DynamicClientRecord S)
    (held : S → String → Option DynamicClientRecord) (laws : IsStorage storage held) where
  -- A rotation that fails leaves the record as it is.
  refused_rotation :
      (h : String) (now : ℤ) (x : DynamicClientRecord) (f : NoSecret)
      → (Registry.rotate_secret h now x).0 ≡ err f
      → after_rotation h now x ≡ x
  unfolding Registry.rotate_secret
  refused_rotation h now x f e = ground arith

  on_id_same :
      (key : String) (f : DynamicClientRecord → DynamicClientRecord) (x : DynamicClientRecord)
      (s : S)
      → held s key ≡ some x
      → f x ≡ x
      → Applied storage held laws (λ j o. on_id key j f o) s s
  on_id_same key f x s here fixed j = elim (Bool-cases (key == j)) [
    | inl same ↦
        subst (λ k. held s k ≡ on_id key k f (held s k)) ((eq_iff key j).0 same)
          (rw (here, eq_refl key, fixed) refl)
    | inr differ ↦ ground arith
  ]

  rotate_found-Became :
      (key h : String) (now : ℤ) (o : Option DynamicClientRecord) (s : S)
      → held s key ≡ o
      → Became storage held laws
          (λ j y. on_id key j (after_rotation h now) y)
          s
          (rotate_found storage key h now o s).1
  unfolding rotate_found settle_rotation
  rotate_found-Became key h now none s here = λ j. inl refl
  rotate_found-Became key h now (some x) s here =
      elim (Result-cases (Registry.rotate_secret h now x).0) [
        | inr (f, refused) ↦ rw (refused, rotate_found, settle_rotation) (λ j. inl refl)
        | inl (until, done) ↦
            rw (done, rotate_found, settle_rotation)
              (and_then_state
                (Became storage held laws (λ j y. on_id key j (after_rotation h now) y) s)
                (storage.put key (after_rotation h now x) s)
                (λ u t. (ok (rotated (after_rotation h now x)), t))
                (put-Became storage held laws _ key (after_rotation h now x) s
                  (on_id-Makes storage held laws key (after_rotation h now) x s here))
                (λ u w. w))
      ]

  pub rotate-Became :
      (id h : String) (now : ℤ) (s : S)
      → Became storage held laws
          (λ j o. on_id (client_key id) j (after_rotation h now) o)
          s
          (rotate storage id h now s).1
  unfolding rotate
  rotate-Became id h now s = elim (Result-cases (storage.get (client_key id) s)) [
    | inr (e, bad) ↦ rw (bad, rotate) (λ j. inl refl)
    | inl (o, good) ↦
        rw (good, rotate)
          (and_then_state
            (Became storage held laws (λ j y. on_id (client_key id) j (after_rotation h now) y) s)
            (rotate_found storage (client_key id) h now o s)
            (λ reply t. (ok (json_ok (rotation reply)), t))
            (rotate_found-Became (client_key id) h now o s
              (sym (laws.get_ok (client_key id) s o good)))
            (λ x w. w))
  ]

  settle_rotation_ok :
      (key : String) (f : DynamicClientRecord → DynamicClientRecord) (x : DynamicClientRecord)
      (p : Result ℤ NoSecret × DynamicClientRecord) (s : S) (reply : RotateSecretReply)
      → held s key ≡ some x
      → p.1 ≡ f x
      → ((e : NoSecret) → p.0 ≡ err e → f x ≡ x)
      → (settle_rotation storage key p s).0 ≡ ok reply
      → (reply ≡ settled p)
        × Applied storage held laws (λ j y. on_id key j f y) s (settle_rotation storage key p s).1
  unfolding settle_rotation
  settle_rotation_ok key f x (err e, y) s reply here is_y kept h =
      (sym (ok-injective h), on_id_same key f x s here (kept e refl))
  settle_rotation_ok key f x (ok until, y) s reply here is_y kept h =
      let (u, put, later, state) =
        and_then_ok (storage.put key y s) (λ u t. (ok (rotated y), t)) reply h in
      (
        sym (ok-injective later),
        λ j.
            ap (λ t. held t j) state
            ∙ put-Applied storage held laws _ key y s u
                (subst (λ z. Makes storage held laws (λ i o. on_id key i f o) key z s) (sym is_y)
                  (on_id-Makes storage held laws key f x s here))
                put j,
      )

  rotate_found_ok :
      (key h : String) (now : ℤ) (o : Option DynamicClientRecord) (s : S)
      (reply : RotateSecretReply)
      → held s key ≡ o
      → (rotate_found storage key h now o s).0 ≡ ok reply
      → (reply ≡ rotation_reply h now o)
        × Applied storage held laws
            (λ j y. on_id key j (after_rotation h now) y)
            s
            (rotate_found storage key h now o s).1
  unfolding rotate_found
  rotate_found_ok key h now none s reply here e =
      (sym (ok-injective e), on_id_absent storage held laws key (after_rotation h now) s here)
  rotate_found_ok key h now (some x) s reply here e =
      settle_rotation_ok key (after_rotation h now) x (Registry.rotate_secret h now x) s reply here
        refl (λ f refused. refused_rotation h now x f refused) e

  pub rotate_ok :
      (id h : String) (now : ℤ) (s : S) (r : Response)
      → (rotate storage id h now s).0 ≡ ok r
      → (r ≡ json_ok (rotation (rotation_reply h now (held s (client_key id)))))
        × Applied storage held laws
            (λ j o. on_id (client_key id) j (after_rotation h now) o)
            s
            (rotate storage id h now s).1
  unfolding rotate
  rotate_ok id h now s r e =
      let key = client_key id in
      let (o, read, e₁, state₁) =
        and_then_ok (storage.get key s, s)
          (λ held t.
            and_then (rotate_found storage key h now held t)
              (λ reply t'. (ok (json_ok (rotation reply)), t')))
          r e in
      let (reply, done, e₂, state₂) =
        and_then_ok (rotate_found storage key h now o s)
          (λ reply t'. (ok (json_ok (rotation reply)), t')) r e₁ in
      let here = laws.get_ok key s o read in
      let (answer, applied) = rotate_found_ok key h now o s reply (sym here) done in
      (
        sym (ok-injective e₂)
            ∙ ap (λ y. json_ok (rotation y)) (answer ∙ ap (rotation_reply h now) here),
        λ j. ap (λ t. held t j) (state₁ ∙ state₂) ∙ applied j,
      )

  pub get_ok :
      (id : String) (s : S) (r : Response)
      → (get_record storage id s).0 ≡ ok r
      → r ≡ record_reply (held s (client_key id))
  unfolding get_record
  get_ok id s r e =
      let (o, read, e₁, state) =
        and_then_ok (storage.get (client_key id) s, s) (λ h t. (ok (record_reply h), t)) r e in
      sym (ok-injective e₁) ∙ ap record_reply (laws.get_ok (client_key id) s o read)
