-- ===== src/Database/Session.antt =====
-- A transaction that stays open while its function uses other connections. Its own writes so far
-- are an argument, since at READ COMMITTED it sees what others have committed under them.
use eventflow_commerce.Errors.{Result, ok, err, driver, statement}
use eventflow_commerce.Database.{
  Action, World, answers, fails, lost, reply, tick, begin, finish, rollback,
}

module _ {S C : Type 0} where
  abbrev pub above : {A : Type 0} → (S → S) → Result A × World S C → Result A × World S C
  above writes (r, w) = (r, record w { view = writes w.committed })

  -- A call on another connection.
  abbrev pub beside : {A : Type 0} → (S → S) → Action S C A → Action S C A
  beside writes m w = above writes (m w)

  -- A single statement through the database handle, which commits at once.
  unfoldable pub execute : (S → S) → Action S C (Unit {0})
  execute u w = elim (reply w) [
    | answers ↦ (ok tt, record (tick w) { committed = u w.committed })
    | fails ↦ (err (driver statement), tick w)
    | lost ↦ (err (driver statement), record (tick w) { committed = u w.committed })
  ]

  abbrev pub enter :
      {A : Type 0} → Action S C A → Result (Unit {0}) × World S C → Result A × World S C
  enter m (ok _, w) = finish (m w)
  enter m (err e, w) = (err e, rollback w)

  -- Begin, the rest of the function, commit; the rollback is deferred.
  unfoldable pub in_session : {A : Type 0} → Action S C A → Action S C A
  in_session m w = enter m (begin w)
