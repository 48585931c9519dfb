-- ===== src/Prelude/Dict/Order.antt =====
-- Maps whose keys stand in strictly increasing order, so that a key stands in one entry.
use Prim.Native.Nat.{Ordering, compare as compare_ℕ}
use Prim.Native.String.{String, compare}
use Prim.Native.String
use Prim.Native.String.compare as compare_clauses
use Prim.Native.Char.{Char, code}
use text.Mathlib.TextPositions.{compare_refl}
use mathlib.Core.Path.{◌≡◌, refl}
use mathlib.Core.Bool.{Bool}
use mathlib.Core.Option.{Option, none, some}
use mathlib.Core.List.{[], ◌∷◌}
use native.Mathlib.Omega.{arith}
use text.Mathlib.TextEquality.{eq_iff, path_by_compare}
use discord_oidc.Prelude.Tests.{if◌then◌else◌}
use discord_oidc.Prelude.Dict.Defs.{Dict, get, insert, remove, retain}

cons-gt-nil : (x : Char) (a : String) → compare (String.◌∷◌ x a) String.[] ≡ Ordering.gt
cons-gt-nil x a = λ i. compare_clauses.cons-nil x a i

nil-lt-cons : (x : Char) (a : String) → compare String.[] (String.◌∷◌ x a) ≡ Ordering.lt
nil-lt-cons x a = λ i. compare_clauses.nil-cons x a i

compare_cons :
    (x y : Char) (a b : String)
    → compare (String.◌∷◌ x a) (String.◌∷◌ y b)
      ≡ String.then (compare_ℕ (code x) (code y)) (compare a b)
compare_cons x y a b = λ i. compare_clauses.cons-cons x y a b i

compare_trans :
    (a b c : String)
    → compare a b ≡ Ordering.lt
    → compare b c ≡ Ordering.lt
    → compare a c ≡ Ordering.lt
compare_trans String.[] String.[] c p q = q
compare_trans String.[] (String.◌∷◌ y b) String.[] p q = ground (arith, cons-gt-nil y b)
compare_trans String.[] (String.◌∷◌ y b) (String.◌∷◌ z c) p q = nil-lt-cons z c
compare_trans (String.◌∷◌ x a) String.[] c p q = ground (arith, cons-gt-nil x a)
compare_trans (String.◌∷◌ x a) (String.◌∷◌ y b) String.[] p q = ground (arith, cons-gt-nil y b)
compare_trans (String.◌∷◌ x a) (String.◌∷◌ y b) (String.◌∷◌ z c) p q =
    ground
      (arith, compare_cons x y a b, compare_cons y z b c, compare_cons x z a c, compare_trans a b c)

pub compare_flip : (a b : String) → compare a b ≡ Ordering.gt → compare b a ≡ Ordering.lt
compare_flip String.[] String.[] p = ground arith
compare_flip String.[] (String.◌∷◌ y b) p = ground (arith, nil-lt-cons y b)
compare_flip (String.◌∷◌ x a) String.[] p = nil-lt-cons x a
compare_flip (String.◌∷◌ x a) (String.◌∷◌ y b) p =
    ground (arith, compare_cons x y a b, compare_cons y x b a, compare_flip a b)

module _ {ℓ} {V : Type ℓ} where
  -- Every key lies above `k`.
  abbrev pub Above : String → Dict V → Type 0
  Above k [] = Unit
  Above k ((j, v) ∷ m) = (compare k j ≡ Ordering.lt) × Above k m

  abbrev pub IsOrdered : Dict V → Type 0
  IsOrdered [] = Unit
  IsOrdered ((j, v) ∷ m) = Above j m × IsOrdered m

  Above-lower : (k j : String) (m : Dict V) → compare k j ≡ Ordering.lt → Above j m → Above k m
  Above-lower k j [] h a = tt
  Above-lower k j ((i, v) ∷ m) h (p, a) = (compare_trans k j i h p, Above-lower k j m h a)

  Above-insert :
      (k j : String) (v : V) (m : Dict V)
      → compare k j ≡ Ordering.lt
      → Above k m
      → Above k (insert j v m)
  unfolding insert
  Above-insert k j v [] h a = (h, tt)
  Above-insert k j v ((i, w) ∷ m) h (p, a) = ground (arith, Above-insert k j v m h a)

  -- Insertion keeps the order.
  pub insert-IsOrdered : (k : String) (v : V) (m : Dict V) → IsOrdered m → IsOrdered (insert k v m)
  unfolding insert
  insert-IsOrdered k v [] o = (tt, tt)
  insert-IsOrdered k v ((j, w) ∷ m) (a, o) = ground (
    arith,
    path_by_compare k j,
    Above-lower k j m,
    compare_flip k j,
    Above-insert j k v m,
    insert-IsOrdered k v m o,
  )

  Above-remove : (k j : String) (m : Dict V) → Above k m → Above k (remove j m)
  unfolding remove
  Above-remove k j [] a = tt
  Above-remove k j ((i, w) ∷ m) (p, a) = ground (arith, Above-remove k j m a)

  pub remove-IsOrdered : (k : String) (m : Dict V) → IsOrdered m → IsOrdered (remove k m)
  unfolding remove
  remove-IsOrdered k [] o = tt
  remove-IsOrdered k ((j, w) ∷ m) (a, o) =
      ground (arith, Above-remove j k m a, remove-IsOrdered k m o)

  Above-retain : (k : String) (keep : V → Bool) (m : Dict V) → Above k m → Above k (retain keep m)
  unfolding retain
  Above-retain k keep [] a = tt
  Above-retain k keep ((i, w) ∷ m) (p, a) = ground (arith, Above-retain k keep m a)

  pub retain-IsOrdered : (keep : V → Bool) (m : Dict V) → IsOrdered m → IsOrdered (retain keep m)
  unfolding retain
  retain-IsOrdered keep [] o = tt
  retain-IsOrdered keep ((j, w) ∷ m) (a, o) =
      ground (arith, Above-retain j keep m a, retain-IsOrdered keep m o)

  get_of_Above : (k : String) (m : Dict V) → Above k m → get k m ≡ none
  unfolding get
  get_of_Above k [] a = refl
  get_of_Above k ((i, w) ∷ m) (p, a) =
      ground (arith, eq_iff i k, compare_refl k, get_of_Above k m a)

  -- What a lookup sees of a value that may be kept.
  abbrev pub keep_if : (V → Bool) → Option V → Option V
  keep_if keep none = none
  keep_if keep (some v) = if keep v then some v else none

  -- After `retain` a lookup sees exactly the values that are kept.
  pub get-retain :
      (keep : V → Bool) (k : String) (m : Dict V)
      → IsOrdered m
      → get k (retain keep m) ≡ keep_if keep (get k m)
  unfolding get retain
  get-retain keep k [] o = refl
  get-retain keep k ((j, w) ∷ m) (a, o) =
      ground (arith, eq_iff j k, get-retain keep k m o, get_of_Above j m a)
