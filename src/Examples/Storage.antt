-- ===== src/Examples/Storage.antt =====
-- A storage that keeps its entries in a map and never fails.
use discord_oidc.Prelude.{
  String, ◌≡◌, ◌≢◌, ◌↔◌, none, contains, if◌then◌else◌, ok-injective, inr, refl, Option, some, List,
  [], ◌∷◌, ok, is_some, length, arith, eq_iff, eq_refl,
}
use discord_oidc.Prelude.Int.{ℤ}
use discord_oidc.Prelude.Dict
use discord_oidc.Prelude.Dict.{Dict, get-insert, get-remove}
use discord_oidc.Worker.Storage.{Storage, IsStorage, Listed}

pub record Stored (V : Type 0) : Type 0 where
  pub entries : Dict V
  pub alarm : Option ℤ

module _ {V : Type 0} where
  pub remove_all : List String → Dict V → Dict V
  remove_all [] m = m
  remove_all (k ∷ ks) m = Dict.remove k (remove_all ks m)

  -- Each key with the value that a lookup finds.
  pub each_once : Dict V → List (String × V)
  each_once [] = []
  each_once ((k, x) ∷ m) = (k, x) ∷ Dict.remove k (each_once m)

  unfoldable pub map_storage : Storage V (Stored V)
  unfolding remove_all each_once
  map_storage = record {
    get = λ k s. ok (Dict.get k s.entries);
    put = λ k x s. (ok tt, record s { entries = Dict.insert k x s.entries });
    delete = λ k s.
        (ok (is_some (Dict.get k s.entries)), record s { entries = Dict.remove k s.entries });
    list = λ s. ok (each_once s.entries);
    delete_multiple = λ ks s. (ok (length ks), record s { entries = remove_all ks s.entries });
    get_alarm = λ s. ok s.alarm;
    set_alarm = λ d s. (ok tt, record s { alarm = some d });
  }

  abbrev pub map_held : Stored V → String → Option V
  map_held s k = Dict.get k s.entries

  remove_only :
      (k j : String) (y : V) (m : Dict V)
      → Dict.get j (Dict.remove k m) ≡ some y
      → Dict.get j m ≡ some y
  remove_only k j y m e = ground (arith, get-remove k j m)

  remove_all_only :
      (ks : List String) (j : String) (y : V) (m : Dict V)
      → Dict.get j (remove_all ks m) ≡ some y
      → Dict.get j m ≡ some y
  unfolding remove_all
  remove_all_only [] j y m e = e
  remove_all_only (k ∷ ks) j y m e =
      remove_all_only ks j y m (remove_only k j y (remove_all ks m) e)

  Listed-remove :
      (k j : String) (y : V) (m : Dict V)
      → (Listed (Dict.remove k m) j y → Listed m j y × (k ≢ j))
        × (Listed m j y → k ≢ j → Listed (Dict.remove k m) j y)
  unfolding Dict.remove
  Listed-remove k j y [] = (λ h. absurd h, λ h n. h)
  Listed-remove k j y ((i, x) ∷ m) = ground (arith, eq_iff i k, Listed-remove k j y m)

  Listed-each_once_iff :
      (j : String) (y : V) (m : Dict V) → Listed (each_once m) j y ↔ (Dict.get j m ≡ some y)
  unfolding each_once Dict.get
  Listed-each_once_iff j y [] = ground arith
  Listed-each_once_iff j y ((k, x) ∷ m) =
      ground (arith, eq_iff k j, Listed-each_once_iff j y m, Listed-remove k j y (each_once m))

  remove_all_get :
      (ks : List String) (j : String) (m : Dict V)
      → Dict.get j (remove_all ks m) ≡ (if contains ks j then none else Dict.get j m)
  unfolding remove_all
  remove_all_get [] j m = refl
  remove_all_get (k ∷ ks) j m =
      ground (arith, get-remove k j (remove_all ks m), remove_all_get ks j m)

  pub map_storage-IsStorage : IsStorage map_storage map_held
  unfolding map_storage
  map_storage-IsStorage = record {
    get_ok = λ k s x e. ground arith;
    put_ok = λ k j x s u e. get-insert k j x s.entries;
    put_frame = λ k j x s n. ground (arith, get-insert k j x s.entries, eq_iff k j);
    put_either = λ k x s. inr (ground (arith, get-insert k k x s.entries, eq_refl k));
    delete_ok = λ k j s b e. get-remove k j s.entries;
    delete_frame = λ k j s n. ground (arith, get-remove k j s.entries, eq_iff k j);
    delete_only = λ k j y s e. remove_only k j y s.entries e;
    delete_multiple_only = λ ks j y s e. remove_all_only ks j y s.entries e;
    delete_multiple_ok = λ ks j s n e. remove_all_get ks j s.entries;
    list_ok = λ s es j y e. rw (← ok-injective e) (Listed-each_once_iff j y s.entries);
    set_alarm_held = λ d j s. refl;
  }
