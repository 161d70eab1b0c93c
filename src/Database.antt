-- ===== src/Database.antt =====
-- database/sql as the code uses it. A transaction body is a program of SQL statements; each
-- statement reads the rows that the transaction sees, changes them, and goes on. The server may
-- answer a call, fail it, or lose the reply after the call took effect: `replies` says which, by
-- the number of calls made so far, and every theorem ranges over it.
pub mod Atomic
pub mod Preserves
pub mod Actions
pub mod Session
use eventflow_commerce.Common.{ℕ, ◌+◌, List}
use eventflow_commerce.Errors.{
  Error, Result, ok, err, driver, begin_transaction, statement, commit_transaction,
}

-- A transaction body over the tables `S`: statements in their order, then the result.
pub data Prog (S A : Type 0) : Type 0 where
  done : Result A → Prog S A
  call : (S → Prog S A) → (S → S) → Prog S A

module _ {S : Type 0} where
  abbrev pub pure : {A : Type 0} → A → Prog S A
  pure a = done (ok a)

  abbrev pub raise : {A : Type 0} → Error → Prog S A
  raise e = done (err e)

  infixl 5 ◌>>=◌ ◌>>◌
  abbrev pub ◌>>=◌ : {A B : Type 0} → Prog S A → (A → Prog S B) → Prog S B
  done (ok a) >>= f = f a
  done (err e) >>= f = done (err e)
  call k u >>= f = call (λ s. k s >>= f) u

  abbrev pub ◌>>◌ : {A B : Type 0} → Prog S A → Prog S B → Prog S B
  m >> k = m >>= λ _. k

  -- One statement, by what it returns and what it leaves in the tables.
  abbrev pub sql : {A : Type 0} → (S → Result A) → (S → S) → Prog S A
  sql f u = call (λ s. done (f s)) u

  abbrev pub query : {A : Type 0} → (S → Result A) → Prog S A
  query f = sql f (λ s. s)

  -- What the body does when the server answers every call.
  unfoldable pub run : {A : Type 0} → Prog S A → S → Result A × S
  run (done r) s = (r, s)
  run (call k u) s = run (k s) (u s)

pub data Reply : Type 0 where
  answers fails lost : Reply

-- The tables as committed and as the open transaction sees them, the calls that reached another
-- service, and the server's behaviour.
pub record World (S C : Type 0) : Type 0 where
  pub committed : S
  pub view : S
  pub calls : List C
  pub clock : ℕ
  pub replies : ℕ → Reply

abbrev pub Action : Type 0 → Type 0 → Type 0 → Type 0
Action S C A = World S C → Result A × World S C

module _ {S C : Type 0} where
  abbrev pub reply : World S C → Reply
  reply w = w.replies w.clock

  abbrev pub tick : World S C → World S C
  tick w = record w { clock = w.clock + 1 }

  -- The statements of a body, each of which may fail; a body stops at its first error.
  unfoldable pub exec : {A : Type 0} → Prog S A → Action S C A
  exec (done r) w = (r, w)
  exec (call k u) w = elim (reply w) [
    | answers ↦ exec (k w.view) (record (tick w) { view = u w.view })
    | _ ↦ (err (driver statement), tick w)
  ]

  -- `BeginTx`
  unfoldable pub begin : Action S C (Unit {0})
  begin w = elim (reply w) [
    | answers ↦ (ok tt, record (tick w) { view = w.committed })
    | _ ↦ (err (driver begin_transaction), tick w)
  ]

  -- `tx.Commit`; when the reply is lost the caller cannot tell that the rows were committed.
  unfoldable pub commit : Action S C (Unit {0})
  commit w = elim (reply w) [
    | answers ↦ (ok tt, record (tick w) { committed = w.view })
    | fails ↦ (err (driver commit_transaction), tick w)
    | lost ↦ (err (driver commit_transaction), record (tick w) { committed = w.view })
  ]

  -- `tx.Rollback`, which every function defers.
  abbrev pub rollback : World S C → World S C
  rollback w = record w { view = w.committed }

  abbrev pub close : {A : Type 0} → A → Result (Unit {0}) × World S C → Result A × World S C
  close a (ok _, w) = (ok a, rollback w)
  close a (err e, w) = (err e, rollback w)

  abbrev pub finish : {A : Type 0} → Result A × World S C → Result A × World S C
  unfolding commit
  finish (ok a, w) = close a (commit w)
  finish (err e, w) = (err e, rollback w)

  abbrev start : {A : Type 0} → Prog S A → Result (Unit {0}) × World S C → Result A × World S C
  start p (ok _, w) = finish (exec p w)
  start p (err e, w) = (err e, rollback w)

  -- A function that begins a transaction, runs the body and commits, its rollback deferred.
  unfoldable pub in_tx : {A : Type 0} → Prog S A → Action S C A
  unfolding begin exec commit
  in_tx p w = start p (begin w)

  -- A query through the database handle, outside any transaction.
  unfoldable pub select : {A : Type 0} → (S → Result A) → Action S C A
  select f w = elim (reply w) [
    | answers ↦ (f w.committed, tick w)
    | _ ↦ (err (driver statement), tick w)
  ]
