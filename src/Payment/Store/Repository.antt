-- ===== src/Payment/Store/Repository.antt =====
-- services/payment/internal/eventstore/repository.go: `Load`, `Save` and `FindByOrderID`.
use eventflow_commerce.Common.{ℕ, ◌-◌, Option, none, some, List, ◌==◌, length, if◌then◌else◌}
use eventflow_commerce.Errors.{Result, ok, err, not_found}
use eventflow_commerce.Database.{Prog, ◌>>◌, Action, in_tx, select}
use eventflow_commerce.Database.Actions
use eventflow_commerce.Payment.Aggregate.{Event, Payment, blank, clear_pending, replay}
use eventflow_commerce.Payment.Codec.{UuidText}
use eventflow_commerce.Payment.Store.Tables.{
  SnapshotRow, Tables, append, latest_snapshot, events_after, is_nil,
}
use eventflow_commerce.Payment.Store.Tables.{find_aggregate}
use eventflow_commerce.Payment.Store.Projection.{project_all, enqueue_all, snapshot_if_due}

-- The loop of `Load` on the snapshot, if any, and the events since.
abbrev pub rebuilt : Option SnapshotRow → List Event → Payment
rebuilt none history = clear_pending (replay history blank)
rebuilt (some s) history = clear_pending (replay history s.snapshot)

abbrev pub found : Payment → Result Payment
found p = if p.id == 0 then err (not_found "payment") else ok p

abbrev pub loaded : Option SnapshotRow → Result (List Event) → Result Payment
loaded s (ok history) = found (rebuilt s history)
loaded s (err e) = err e

abbrev pub base_version : Option SnapshotRow → ℕ
base_version none = 0
base_version (some s) = s.snapshot_version

module _ (u : UuidText) where
  -- The transaction of `Save`; `expectedVersion` is the version less the pending events, of which
  -- there are never more.
  unfoldable pub save_body : Payment → Prog Tables (Unit {0})
  save_body p = do
    append u p.id (p.version - length p.pending_events) p.pending_events
    project_all p p.pending_events
    enqueue_all p p.pending_events
    snapshot_if_due p

  -- What the two queries of `Load` amount to on the same tables.
  unfoldable pub load_rows : ℕ → Tables → Result Payment
  load_rows id t = let s = latest_snapshot id t in loaded s (events_after u id (base_version s) t)

  module _ {C : Type 0} where
    -- `Repository.Load`
    unfoldable pub load : ℕ → Action Tables C Payment
    load id = Actions.◌>>=◌ (select (λ t. ok (latest_snapshot id t))) (λ s.
        Actions.◌>>=◌ (select (events_after u id (base_version s)))
          (λ history. Actions.lift (found (rebuilt s history))))

    abbrev pub load_if : ℕ → Action Tables C (Option Payment)
    load_if id =
        if id == 0
        then Actions.return none
        else Actions.◌>>=◌ (load id) (λ p. Actions.return (some p))

    -- `Repository.FindByOrderID`
    unfoldable pub find_by_order_id : ℕ → Action Tables C (Option Payment)
    find_by_order_id order = Actions.◌>>=◌ (select (λ t. ok (find_aggregate u order t))) load_if

    -- `Repository.Save`, with the payment as it stands after a save without an error
    unfoldable pub save : Payment → Action Tables C Payment
    save p =
        if is_nil p.pending_events
        then Actions.return p
        else Actions.◌>>=◌ (in_tx (save_body p)) (λ _. Actions.return (clear_pending p))
