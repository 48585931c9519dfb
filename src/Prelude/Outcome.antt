-- ===== src/Prelude/Outcome.antt =====
-- Rust's `Result`, and its `?` as a bind.
use mathlib.Core.Path.{◌≡◌, refl}
use mathlib.Core.Logic.{◌⊎◌, inl, inr}
use mathlib.Core.Bool.{Bool, true, false}
use discord_oidc.Prelude.Tests.{if◌then◌else◌}

pub data Result {ℓ κ} (A : Type ℓ) (E : Type κ) : Type (ℓ ⊔ κ) where
  ok : A → Result A E
  err : E → Result A E

infixl 5 ◌>>=◌ ◌>>◌
abbrev pub ◌>>=◌ {ℓ κ μ} :
    {A : Type ℓ} {B : Type κ} {E : Type μ} → Result A E → (A → Result B E) → Result B E
ok a >>= f = f a
err e >>= f = err e

abbrev pub ◌>>◌ {κ μ} : {B : Type κ} {E : Type μ} → Result (Unit {0}) E → Result B E → Result B E
m >> k = m >>= λ _. k

pub Result-cases {ℓ κ} :
    {A : Type ℓ} {E : Type κ} (r : Result A E) → ((a : A) × (r ≡ ok a)) ⊎ ((e : E) × (r ≡ err e))
Result-cases (ok a) = inl (a, refl)
Result-cases (err e) = inr (e, refl)

pub ok-injective {ℓ κ} :
    {A : Type ℓ} {E : Type κ} {a b : A} → ◌≡◌ {A = Result A E} (ok a) (ok b) → a ≡ b
ok-injective e = cc

-- Inversion of a successful bind.
pub >>=-eq-ok {ℓ κ μ} :
    {A : Type ℓ} {B : Type κ} {E : Type μ} (r : Result A E) (next : A → Result B E) {result : B}
    → (r >>= next) ≡ ok result
    → (x : A) × (r ≡ ok x) × (next x ≡ ok result)
>>=-eq-ok (ok x) next same = (x, refl, same)
>>=-eq-ok (err failure) next same = cc

-- A property of the error, if there is one, and how it goes through the chains.
module _ {ℓ κ} {E : Type ℓ} (P : E → Type κ) where
  abbrev pub OnErr {μ} : {A : Type μ} → Result A E → Type κ
  OnErr (ok a) = Unit
  OnErr (err e) = P e

  pub OnErr->>= {μ ν} :
      {A : Type μ} {B : Type ν} (m : Result A E) (f : A → Result B E)
      → OnErr m
      → ((a : A) → OnErr (f a))
      → OnErr (m >>= f)
  OnErr->>= (ok a) f h k = k a
  OnErr->>= (err e) f h k = h

  pub OnErr-if {μ} :
      {A : Type μ} (b : Bool) (x y : Result A E) → OnErr x → OnErr y → OnErr (if b then x else y)
  OnErr-if true x y h k = h
  OnErr-if false x y h k = k
