-- ===== src/Worker/Changes.antt =====
-- crates/discord-oidc-worker/src/durable.rs: the change of a record and the insertion of one.
use discord_oidc.Prelude.{
  String, ◌≡◌, refl, sym, ap, subst, ◌∙◌, inl, inr, true, not, Option, none, some, Result, ok,
  ok-injective, arith, eq_iff, eq_refl, ◌==◌, is_some, Result-cases, Bool-cases,
}
use discord_oidc.Registry.{DynamicClientRecord}
use discord_oidc.Registry.Memory.Effect.{on_id}
use discord_oidc.Worker.Storage.{
  WorkerError, Storage, IsStorage, and_then, and_then_state, and_then_ok,
}
use discord_oidc.Worker.ClientRegistryState.{
  client_key, Response, json_ok, found, inserted, mutate_found, mutate, change, insert_free, insert,
}
use discord_oidc.Worker.Records.{
  Applied, Became, insert_response, mapped, on_id-Makes, on_id_absent, put-Applied, put-Became,
  put_at, put_at-Makes,
}

module _ {S : Type 0} (storage : Storage DynamicClientRecord S)
    (held : S → String → Option DynamicClientRecord) (laws : IsStorage storage held) where
  mutate_found-Became :
      (f : DynamicClientRecord → DynamicClientRecord) (key : String)
      (o : Option DynamicClientRecord) (s : S)
      → held s key ≡ o
      → Became storage held laws (λ j h. on_id key j f h) s (mutate_found storage f key o s).1
  unfolding mutate_found
  mutate_found-Became f key none s here = λ j. inl refl
  mutate_found-Became f key (some x) s here =
      and_then_state (Became storage held laws (λ j h. on_id key j f h) s) (storage.put key (f x) s)
        (λ u t. (ok (some (f x)), t))
        (put-Became storage held laws _ key (f x) s (on_id-Makes storage held laws key f x s here))
        (λ u h. h)

  mutate_found_ok :
      (f : DynamicClientRecord → DynamicClientRecord) (key : String)
      (o r : Option DynamicClientRecord) (s : S)
      → held s key ≡ o
      → (mutate_found storage f key o s).0 ≡ ok r
      → (r ≡ mapped f o)
        × Applied storage held laws (λ j h. on_id key j f h) s (mutate_found storage f key o s).1
  unfolding mutate_found
  mutate_found_ok f key none r s here e =
      (ground arith, on_id_absent storage held laws key f s here)
  mutate_found_ok f key (some x) r s here e =
      let (u, put, later, state) =
        and_then_ok (storage.put key (f x) s) (λ u t. (ok (some (f x)), t)) r e in
      (
        ground arith,
        λ j.
            ap (λ t. held t j) state
            ∙ put-Applied storage held laws _ key (f x) s u
                (on_id-Makes storage held laws key f x s here) put j,
      )

  pub change-Became :
      (id : String) (f : DynamicClientRecord → DynamicClientRecord) (s : S)
      → Became storage held laws (λ j o. on_id (client_key id) j f o) s (change storage id f s).1
  unfolding change mutate
  change-Became id f s = elim (Result-cases (storage.get (client_key id) s)) [
    | inr (e, bad) ↦ rw (bad, change, mutate) (λ j. inl refl)
    | inl (o, good) ↦
        rw (good, change, mutate)
          (and_then_state (Became storage held laws (λ j h. on_id (client_key id) j f h) s)
            (mutate_found storage f (client_key id) o s) (λ x t. (ok (json_ok (found x)), t))
            (mutate_found-Became f (client_key id) o s (sym (laws.get_ok (client_key id) s o good)))
            (λ x h. h))
  ]

  pub change_ok :
      (id : String) (f : DynamicClientRecord → DynamicClientRecord) (s : S) (r : Response)
      → (change storage id f s).0 ≡ ok r
      → (r ≡ json_ok (found (mapped f (held s (client_key id)))))
        × Applied storage held laws (λ j o. on_id (client_key id) j f o) s (change storage id f s).1
  unfolding change mutate
  change_ok id f s r e =
      let key = client_key id in
      let (x, done, e₁, state₁) =
        and_then_ok (mutate storage id f s) (λ x t. (ok (json_ok (found x)), t)) r e in
      let (o, read, e₂, state₂) =
        and_then_ok (storage.get key s, s) (λ h t. mutate_found storage f key h t) x done in
      let here = laws.get_ok key s o read in
      let (answer, applied) = mutate_found_ok f key o x s (sym here) e₂ in
      (
        sym (ok-injective e₁) ∙ ap (λ y. json_ok (found y)) (answer ∙ ap (mapped f) here),
        λ j. ap (λ t. held t j) (state₁ ∙ state₂) ∙ applied j,
      )

  insert_free-Became :
      (key : String) (x : DynamicClientRecord) (o : Option DynamicClientRecord) (s : S)
      → held s key ≡ o
      → Became storage held laws (put_at key x) s (insert_free storage key x (is_some o) s).1
  unfolding insert_free
  insert_free-Became key x (some y) s here = λ j. inl refl
  insert_free-Became key x none s here =
      and_then_state (Became storage held laws (put_at key x) s) (storage.put key x s)
        (λ u t. (ok (record { status = 201; reply = inserted true }), t))
        (put-Became storage held laws _ key x s (put_at-Makes storage held laws key x s here))
        (λ u h. h)

  pub insert-Became :
      (id : String) (x : DynamicClientRecord) (s : S)
      → Became storage held laws (put_at (client_key id) x) s (insert storage id x s).1
  unfolding insert
  insert-Became id x s = elim (Bool-cases (x.client_id == id)) [
    | inr differ ↦ rw (differ, insert) (λ j. inl refl)
    | inl same ↦ elim (Result-cases (storage.get (client_key id) s)) [
      | inr (e, bad) ↦ rw (same, bad, insert) (λ j. inl refl)
      | inl (o, good) ↦
          rw (same, good, insert)
            (insert_free-Became (client_key id) x o s (sym (laws.get_ok (client_key id) s o good)))
    ]
  ]

  put_at_held :
      (key : String) (x y : DynamicClientRecord) (s : S)
      → held s key ≡ some y
      → Applied storage held laws (put_at key x) s s
  put_at_held key x y s here j = elim (Bool-cases (key == j)) [
    | inl same ↦
        subst (λ k. held s k ≡ put_at key x k (held s k)) ((eq_iff key j).0 same) (rw here refl)
    | inr differ ↦ ground arith
  ]

  insert_free_ok :
      (key : String) (x : DynamicClientRecord) (o : Option DynamicClientRecord) (s : S)
      (r : Response)
      → held s key ≡ o
      → (insert_free storage key x (is_some o) s).0 ≡ ok r
      → (r ≡ insert_response (not (is_some o)))
        × Applied storage held laws (put_at key x) s (insert_free storage key x (is_some o) s).1
  unfolding insert_free
  insert_free_ok key x (some y) s r here e = (sym (ok-injective e), put_at_held key x y s here)
  insert_free_ok key x none s r here e =
      let (u, put, later, state) =
        and_then_ok (storage.put key x s)
          (λ u t. (ok (record { status = 201; reply = inserted true }), t)) r e in
      (
        sym (ok-injective later),
        λ j.
            ap (λ t. held t j) state
            ∙ put-Applied storage held laws _ key x s u
                (put_at-Makes storage held laws key x s here) put j,
      )

  pub insert_ok :
      (x : DynamicClientRecord) (s : S) (r : Response)
      → (insert storage x.client_id x s).0 ≡ ok r
      → (r ≡ insert_response (not (is_some (held s (client_key x.client_id)))))
        × Applied storage held laws
            (put_at (client_key x.client_id) x)
            s
            (insert storage x.client_id x s).1
  unfolding insert
  insert_ok x s r e =
      let key = client_key x.client_id in
      let p = and_then (storage.get key s, s) (λ h t. insert_free storage key x (is_some h) t) in
      let opened : insert storage x.client_id x s ≡ p = rw (eq_refl x.client_id) refl in
      let (o, read, e₁, state) =
        and_then_ok (storage.get key s, s) (λ h t. insert_free storage key x (is_some h) t) r
          (sym (ap (λ q. q.0) opened) ∙ e) in
      let here = laws.get_ok key s o read in
      let (answer, applied) = insert_free_ok key x o s r (sym here) e₁ in
      (
        answer ∙ ap (λ h. insert_response (not (is_some h))) here,
        λ j.
            ap (λ (q : Result Response WorkerError × S). held q.1 j) opened
            ∙ ap (λ t. held t j) state
            ∙ applied j,
      )
