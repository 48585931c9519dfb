-- ===== src/Worker/Storage.antt =====
-- The storage of a Durable Object, the messages to one, and the stub that carries them: what the
-- Workers runtime provides to crates/discord-oidc-worker. Values keep their types on the way
-- through serde.
use discord_oidc.Prelude.{
  ℕ, String, ◌≡◌, ◌≢◌, ◌⊎◌, ◌↔◌, contains, [], ◌∷◌, refl, arith, Bool, Option, none, some, List,
  Result, ok, err, ◌==◌, if◌then◌else◌,
}
use discord_oidc.Prelude.Int.{ℤ}

pub data WorkerError : Type 0 where
  worker_error : String → WorkerError

-- The key-value API over the state `S` of an object's storage that holds values of type `V`.
pub record Storage (V S : Type 0) : Type 0 where
  pub get : String → S → Result (Option V) WorkerError
  pub put : String → V → S → Result (Unit {0}) WorkerError × S
  pub delete : String → S → Result Bool WorkerError × S
  pub list : S → Result (List (String × V)) WorkerError
  pub delete_multiple : List String → S → Result ℕ WorkerError × S
  pub get_alarm : S → Result (Option ℤ) WorkerError
  pub set_alarm : ℤ → S → Result (Unit {0}) WorkerError × S

-- The listing has a value for a key.
abbrev pub Listed : {V : Type 0} → List (String × V) → String → V → Type 0
Listed [] j y = ⊥
Listed ((k, x) ∷ entries) j y = ((k ≡ j) × (x ≡ y)) ⊎ Listed entries j y

-- What is held under each key, and what the operations do to it. A write that fails may or may not
-- have happened; other keys are never touched.
pub record IsStorage {V S : Type 0} (o : Storage V S) (held : S → String → Option V) : Type 0 where
  pub get_ok : (k : String) (s : S) (x : Option V) → o.get k s ≡ ok x → x ≡ held s k
  pub put_ok :
      (k j : String) (x : V) (s : S) (u : Unit {0})
      → (o.put k x s).0 ≡ ok u
      → held (o.put k x s).1 j ≡ (if k == j then some x else held s j)
  pub put_frame : (k j : String) (x : V) (s : S) → k ≢ j → held (o.put k x s).1 j ≡ held s j
  pub put_either :
      (k : String) (x : V) (s : S)
      → (held (o.put k x s).1 k ≡ held s k) ⊎ (held (o.put k x s).1 k ≡ some x)
  pub delete_ok :
      (k j : String) (s : S) (b : Bool)
      → (o.delete k s).0 ≡ ok b
      → held (o.delete k s).1 j ≡ (if k == j then none else held s j)
  pub delete_frame : (k j : String) (s : S) → k ≢ j → held (o.delete k s).1 j ≡ held s j
  pub delete_only :
      (k j : String) (y : V) (s : S) → held (o.delete k s).1 j ≡ some y → held s j ≡ some y
  pub delete_multiple_only :
      (ks : List String) (j : String) (y : V) (s : S)
      → held (o.delete_multiple ks s).1 j ≡ some y
      → held s j ≡ some y
  pub delete_multiple_ok :
      (ks : List String) (j : String) (s : S) (n : ℕ)
      → (o.delete_multiple ks s).0 ≡ ok n
      → held (o.delete_multiple ks s).1 j ≡ (if contains ks j then none else held s j)
  pub list_ok :
      (s : S) (entries : List (String × V)) (j : String) (y : V)
      → o.list s ≡ ok entries
      → Listed entries j y ↔ (held s j ≡ some y)
  pub set_alarm_held : (d : ℤ) (j : String) (s : S) → held (o.set_alarm d s).1 j ≡ held s j

-- `?` on a step that has a state.
abbrev pub and_then {ℓ κ} :
    {A : Type ℓ} {B : Type κ} {S : Type 0}
    → Result A WorkerError × S
    → (A → S → Result B WorkerError × S)
    → Result B WorkerError × S
and_then p f = elim p.0 [ ok a ↦ f a p.1 | err e ↦ (err e, p.1) ]

-- What a step does to the state, and what a step that succeeds has done.
pub and_then_state {ℓ κ μ} :
    {A : Type ℓ} {B : Type κ} {S : Type 0} (F : S → Type μ) (p : Result A WorkerError × S)
    (f : A → S → Result B WorkerError × S)
    → F p.1
    → ((a : A) → F p.1 → F (f a p.1).1)
    → F (and_then p f).1
and_then_state F (ok a, s) f h k = k a h
and_then_state F (err e, s) f h k = h

pub and_then_ok {ℓ κ} :
    {A : Type ℓ} {B : Type κ} {S : Type 0} (p : Result A WorkerError × S)
    (f : A → S → Result B WorkerError × S) (b : B)
    → (and_then p f).0 ≡ ok b
    → (a : A) × (p.0 ≡ ok a) × ((f a p.1).0 ≡ ok b) × ((and_then p f).1 ≡ (f a p.1).1)
and_then_ok (ok a, s) f b e = (a, refl, e, refl)
and_then_ok (err x, s) f b e = absurd (ground arith)

-- What becomes of a message that an object answers by `fetch`: it is answered; or its answer is
-- lost; or it never arrives, or what it did is rolled back.
module _ {M R S : Type 0} (fetch : M → S → Result R WorkerError × S) where
  pub data Delivery (m : M) (s : S) : Result R WorkerError × S → Type 0 where
    delivered : Delivery m s (fetch m s)
    answer_lost : (e : WorkerError) → Delivery m s (err e, (fetch m s).1)
    undone : (e : WorkerError) → Delivery m s (err e, s)

  abbrev pub IsStub : (M → S → Result R WorkerError × S) → Type 0
  IsStub stub = (m : M) (s : S) → Delivery m s (stub m s)

  -- What holds of the state before and of the state after the answer holds whatever happens.
  pub Delivery-state :
      (F : S → Type 0) (m : M) (s : S) (p : Result R WorkerError × S)
      → Delivery m s p
      → F s
      → F (fetch m s).1
      → F p.1
  Delivery-state F m s p delivered same after = after
  Delivery-state F m s p (answer_lost e) same after = after
  Delivery-state F m s p (undone e) same after = same
