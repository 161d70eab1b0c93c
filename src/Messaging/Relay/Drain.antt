-- ===== src/Messaging/Relay/Drain.antt =====
-- The relay empties the outbox.
use eventflow_commerce.Common.{
  ℕ, zero, suc, ◌-◌, ◌*◌, ◌≤◌, ◌≡◌, not, Bool-cases, inl, inr, List, [], ◌∷◌, length, where_rows,
  arith,
}
use eventflow_commerce.Database.{answers}
use eventflow_commerce.Messaging.Outbox.{OutboxRow}
use eventflow_commerce.Messaging.Relay.{RelayWorld, Setting, relay_batch, relay_ticks}
use eventflow_commerce.Messaging.Relay.Prefix.{publish_first}
use eventflow_commerce.Messaging.Relay.Batch.{IsOpen, Relayed, relay_batch-Relayed}

-- The rows that `reportPending` counts.
abbrev pub pending_count : {P : Type 0} → List (OutboxRow P) → ℕ
pending_count rows = length (where_rows (λ r. not r.published) rows)

publish_first_count :
    {P : Type 0} (n : ℕ) (rows : List (OutboxRow P))
    → pending_count (publish_first n rows) ≡ pending_count rows - n
unfolding publish_first
publish_first_count zero rows = omega arith
publish_first_count (suc n) [] = omega arith
publish_first_count (suc n) (r ∷ rows) = elim (Bool-cases r.published) [
  | inl e ↦ rw e (publish_first_count (suc n) rows)
  | inr e ↦ rw e (omega (arith, publish_first_count n rows))
]

module _ {P D V : Type 0} (set : Setting P D V) (op : IsOpen set) where
  -- When every call is answered and nothing stands in the way, so many ticks of the relay as hold all
  -- pending rows leave no pending row.
  pub relay_ticks_drain :
      (n : ℕ) (w : RelayWorld P V)
      → ((t : ℕ) → w.replies t ≡ answers)
      → pending_count w.committed ≤ n * set.batch_size
      → pending_count (relay_ticks set n w).committed ≡ 0
  unfolding relay_ticks
  relay_ticks_drain zero w h b = omega arith
  relay_ticks_drain (suc n) w h b =
      let r : Relayed set op w (relay_batch set w) = relay_batch-Relayed set op w h in
      relay_ticks_drain n (relay_batch set w).1 (rw r.replies_after h)
        (rw r.rows_after (grind (arith, publish_first_count set.batch_size w.committed)))
