-- ===== src/Payment/Store/Conflict.antt =====
-- `Save` behind another writer, and `Load` on the replies of the server.
use eventflow_commerce.Common.{
  ℕ, Option, ◌+◌, ◌-◌, ◌<◌, ◌≡◌, refl, sym, ap, ◌∙◌, subst, ◌⊎◌, inl, inr, false, List, ◌∷◌, length,
}
use eventflow_commerce.Errors.{Result, ok, err, driver, statement, conflict}
use eventflow_commerce.Database.{run, World, tick, answers, select, in_tx}
use eventflow_commerce.Database.Atomic.{Reply-cases, in_tx-answered, settled, run-bind, continue}
use eventflow_commerce.Database.Actions
use eventflow_commerce.Payment.Aggregate.{Event, Payment, clear_pending}
use eventflow_commerce.Payment.Codec.{UuidText}
use eventflow_commerce.Payment.Store.Tables.{
  SnapshotRow, Tables, append, is_nil, latest_snapshot, events_after,
}
use eventflow_commerce.Payment.Store.Repository.{
  save_body, save, load, load_rows, loaded, found, rebuilt, base_version,
}
use eventflow_commerce.Payment.Store.Streams.{HasHistory}
use eventflow_commerce.Payment.Store.Appending.{append_stale}

module _ (u : UuidText) where
  save_body_stale :
      (p : Payment) (e : Event) (rest history : List Event) (t : Tables)
      → p.pending_events ≡ e ∷ rest
      → HasHistory u p.id history t
      → p.version - length p.pending_events < length history
      → run (save_body u p) t ≡ (err conflict, t)
  unfolding save_body
  save_body_stale p e rest history t some_pending h behind =
      let a : run (append u p.id (p.version - length p.pending_events) p.pending_events) t
          ≡ (err conflict, t) =
        subst
          (λ es. run (append u p.id (p.version - length p.pending_events) es) t ≡ (err conflict, t))
          (sym some_pending)
          (append_stale u p.id (p.version - length p.pending_events) e history rest t h behind) in
      rw (run-bind, a, continue) refl

module _ {C : Type 0} where
  conflicted :
      (p : Payment) (w : World Tables C) (o : Result (Unit {0}) × World Tables C)
      → o.0 ≡ err conflict
      → o.1.committed ≡ w.committed
      → ((Actions.resume (λ _. Actions.return (clear_pending p)) o).0 ≡ err conflict)
        × ((Actions.resume (λ _. Actions.return (clear_pending p)) o).1.committed ≡ w.committed)
  conflicted p w (ok a, v) e same = absurd (cc)
  conflicted p w (err x, v) e same = (cc, same)

module _ (u : UuidText) {C : Type 0} where
  -- A payment with a pending event was built on a shorter history than the table has, and the
  -- server answers every call: `Save` returns a conflict and leaves the committed tables as they
  -- are.
  pub save_stale :
      (p : Payment) (e : Event) (rest history : List Event) (w : World Tables C)
      → p.pending_events ≡ e ∷ rest
      → HasHistory u p.id history w.committed
      → p.version - length p.pending_events < length history
      → ((n : ℕ) → w.replies n ≡ answers)
      → ((save u p w).0 ≡ err conflict) × ((save u p w).1.committed ≡ w.committed)
  unfolding save
  save_stale p e rest history w some_pending h behind answered =
      let r = save_body_stale u p e rest history w.committed some_pending h behind in
      let a = in_tx-answered (save_body u p) w answered in
      let c =
        conflicted p w (in_tx (save_body u p) w)
          (a.0 ∙ ap (λ (o : Result (Unit {0}) × Tables). o.0) r)
          (a.1 ∙ ap (λ o. settled o w.committed) r) in
      let some : is_nil p.pending_events ≡ false = ap is_nil some_pending in rw some c

  loaded_rows :
      (v : World Tables C) (s : Option SnapshotRow) (h : Result (List Event))
      → ((Actions.resume (λ history. Actions.lift (found (rebuilt s history))) (h, v)).0
          ≡ loaded s h)
        × ((Actions.resume (λ history. Actions.lift (found (rebuilt s history))) (h, v)).1.committed
            ≡ v.committed)
  loaded_rows v s (ok history) = (refl, refl)
  loaded_rows v s (err e) = (refl, refl)

  -- `Load` leaves the committed tables as they are; it returns what its two queries amount to on
  -- them, or the error of a query that the server did not answer.
  pub load_lem :
      (id : ℕ) (w : World Tables C)
      → (((load u id w).0 ≡ load_rows u id w.committed)
          ⊎ ((load u id w).0 ≡ err (driver statement)))
        × ((load u id w).1.committed ≡ w.committed)
  unfolding load load_rows select
  load_lem id w =
      let s = latest_snapshot id w.committed in
      let h = events_after u id (base_version s) w.committed in
      elim (Reply-cases (w.replies w.clock)) [
        | inl e ↦ elim (Reply-cases (w.replies (w.clock + 1))) [
          | inl f ↦
              rw (select, e, select, f)
                (inl (loaded_rows (tick (tick w)) s h).0, (loaded_rows (tick (tick w)) s h).1)
          | inr (inl f) ↦ rw (select, e, select, f) (inr refl, refl)
          | inr (inr f) ↦ rw (select, e, select, f) (inr refl, refl)
        ]
        | inr (inl e) ↦ rw (select, e) (inr refl, refl)
        | inr (inr e) ↦ rw (select, e) (inr refl, refl)
      ]
