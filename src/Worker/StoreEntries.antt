-- ===== src/Worker/StoreEntries.antt =====
-- crates/discord-oidc-worker: the keys and entries of durable.rs, the
-- replies that do_store.rs reads, and the delivery of a message between them.
use Prim.Native.String
use text.Mathlib.TextLemmas.{cons-append}
use discord_oidc.Prelude.{
  String, ◌≡◌, ◌≢◌, refl, ap, inl, inr, Bool, true, false, Option, none, some, Result, ok, err,
  arith, eq_iff, eq_refl, ◌==◌, if◌then◌else◌, Result-cases, Bool-cases,
}
use discord_oidc.Prelude.Text.{strip_prefix}
use discord_oidc.Crates.{Crates}
use discord_oidc.Transaction.{AuthorizationTransaction}
use discord_oidc.Code.{StoredAuthorizationCode, ConsumeDeny}
use discord_oidc.Store.{StoreError, TakeTransaction}
use discord_oidc.Registry.Ids.{strip_prefix-append}
use discord_oidc.Worker.Storage.{
  WorkerError, Storage, IsStorage, Delivery, delivered, answer_lost, undone, IsStub,
}
use discord_oidc.Worker.AuthorizationState.{
  tx_key, code_key, Entry, transaction, code, Message, Response, Reply, took, exchanged,
  TakeTransactionReply, ConsumeCodeReply, fetch,
}
use discord_oidc.Worker.DoStore.{accept, read_taken, as_take, read_exchanged, as_exchange}

-- Keys are distinct: those of one kind by what they name, and the two kinds by their prefixes.
pub tx_key-injective : (a b : String) → tx_key a ≡ tx_key b → a ≡ b
unfolding tx_key
tx_key-injective a b e =
    ground
      (arith, strip_prefix-append "tx:" a, strip_prefix-append "tx:" b, ap (strip_prefix "tx:") e)

pub code_key-injective : (a b : String) → code_key a ≡ code_key b → a ≡ b
unfolding code_key
code_key-injective a b e = ground (
  arith,
  strip_prefix-append "code:" a,
  strip_prefix-append "code:" b,
  ap (strip_prefix "code:") e,
)

code_not_tx : (b : String) → strip_prefix "tx:" (String.◌++◌ "code:" b) ≡ none
unfolding strip_prefix
code_not_tx b = rw (cons-append "c" "ode:" b) refl

pub tx_key-code_key : (a b : String) → tx_key a ≢ code_key b
unfolding tx_key code_key
tx_key-code_key a b e =
    ground (arith, strip_prefix-append "tx:" a, code_not_tx b, ap (strip_prefix "tx:") e)

pub tx_key_test : (a b : String) → (tx_key a == tx_key b) ≡ (a == b)
tx_key_test a b = elim (Bool-cases (a == b)) [
  | inl same ↦ let is_b : a ≡ b = ground (arith, eq_iff a b) in rw (same, is_b) (eq_refl (tx_key b))
  | inr differ ↦ ground (arith, eq_iff a b, eq_iff (tx_key a) (tx_key b), tx_key-injective a b)
]

pub code_key_test : (a b : String) → (code_key a == code_key b) ≡ (a == b)
code_key_test a b = elim (Bool-cases (a == b)) [
  | inl same ↦
      let is_b : a ≡ b = ground (arith, eq_iff a b) in rw (same, is_b) (eq_refl (code_key b))
  | inr differ ↦
      ground (arith, eq_iff a b, eq_iff (code_key a) (code_key b), code_key-injective a b)
]

pub transaction-injective : (x y : AuthorizationTransaction) → transaction x ≡ transaction y → x ≡ y
transaction-injective x y e = ground arith

pub code-injective : (x y : StoredAuthorizationCode) → code x ≡ code y → x ≡ y
code-injective x y e = ground arith

abbrev pub tx_of : Option Entry → Option AuthorizationTransaction
tx_of none = none
tx_of (some (transaction tx)) = some tx
tx_of (some (code x)) = none

abbrev pub code_of : Option Entry → Option StoredAuthorizationCode
code_of none = none
code_of (some (code x)) = some x
code_of (some (transaction tx)) = none

pub tx_of_if :
    (b : Bool) (x y : Option Entry) → tx_of (if b then x else y) ≡ (if b then tx_of x else tx_of y)
tx_of_if true x y = refl
tx_of_if false x y = refl

pub code_of_if :
    (b : Bool) (x y : Option Entry)
    → code_of (if b then x else y) ≡ (if b then code_of x else code_of y)
code_of_if true x y = refl
code_of_if false x y = refl

pub tx_of-some :
    (o : Option Entry) (tx : AuthorizationTransaction)
    → tx_of o ≡ some tx
    → o ≡ some (transaction tx)
tx_of-some none tx e = absurd (ground arith)
tx_of-some (some (transaction ty)) tx e = ground arith
tx_of-some (some (code x)) tx e = absurd (ground arith)

pub code_of-some :
    (o : Option Entry) (x : StoredAuthorizationCode) → code_of o ≡ some x → o ≡ some (code x)
code_of-some none x e = absurd (ground arith)
code_of-some (some (code y)) x e = ground arith
code_of-some (some (transaction tx)) x e = absurd (ground arith)

pub read_taken_sound :
    (a : Result Reply StoreError) (r : TakeTransaction)
    → read_taken a ≡ ok r
    → (reply : TakeTransactionReply) × (a ≡ ok (took reply)) × (as_take reply ≡ r)
unfolding read_taken
read_taken_sound (ok (took reply)) r e = (reply, refl, ground arith)
read_taken_sound (ok reply) r e = absurd (ground arith)
read_taken_sound (err f) r e = absurd (ground arith)

pub read_exchanged_sound :
    (a : Result Reply StoreError) (r : Result StoredAuthorizationCode ConsumeDeny)
    → read_exchanged a ≡ ok r
    → (reply : ConsumeCodeReply) × (a ≡ ok (exchanged reply)) × (as_exchange reply ≡ r)
unfolding read_exchanged
read_exchanged_sound (ok (exchanged reply)) r e = (reply, refl, ground arith)
read_exchanged_sound (ok reply) r e = absurd (ground arith)
read_exchanged_sound (err f) r e = absurd (ground arith)

pub took-injective : (a b : TakeTransactionReply) → took a ≡ took b → a ≡ b
took-injective a b e = ground arith

pub exchanged-injective : (a b : ConsumeCodeReply) → exchanged a ≡ exchanged b → a ≡ b
exchanged-injective a b e = ground arith

module _ ⦃c : Crates⦄ {S : Type 0} (storage : Storage Entry S) (held : S → String → Option Entry)
    (laws : IsStorage storage held) (stub : Message → S → Result Response WorkerError × S)
    (stub_laws : IsStub (fetch storage) stub) where
  pub Delivery-ok :
      (m : Message) (s : S) (p : Result Response WorkerError × S) (reply : Reply)
      → Delivery (fetch storage) m s p
      → accept p.0 ≡ ok reply
      → (r : Response) × ((fetch storage m s).0 ≡ ok r)
        × (r.reply ≡ reply)
        × (p.1 ≡ (fetch storage m s).1)
  unfolding accept
  Delivery-ok m s p reply delivered e = elim (Result-cases (fetch storage m s).0) [
    | inl (r, good) ↦ (r, good, ground arith, refl)
    | inr (f, bad) ↦ absurd (ground arith)
  ]
  Delivery-ok m s p reply (answer_lost x) e = absurd (ground arith)
  Delivery-ok m s p reply (undone x) e = absurd (ground arith)
