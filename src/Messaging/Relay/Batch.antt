-- ===== src/Messaging/Relay/Batch.antt =====
-- What RelayBatch does when the database and the brokers answer every call: an independent
-- description, without places, transactions and retries.
use eventflow_commerce.Common.{
  ℕ, ◌+◌, ◌≡◌, refl, sym, subst, ◌∙◌, Bool, true, false, some, List, [], ◌∷◌, ◌++◌,
}
use mathlib.Core.List.{append_assoc, append-nil}
use eventflow_commerce.Errors.{Result, ok}
use eventflow_commerce.Database.{answers, begin, commit, exec, close, tick}
use eventflow_commerce.Database.Actions.{log_call}
use eventflow_commerce.Messaging.Outbox.{Message}
use eventflow_commerce.Messaging.Publisher.{
  KafkaEvent, KafkaMessage, completed, message_of, write_message, publish,
}
use eventflow_commerce.Messaging.Relay.Backed.{Carries}
use eventflow_commerce.Messaging.Relay.{
  Selected, update_at, as_published, RelayWorld, event_of, Setting, mark_row, mark_by, publish_data,
  publish_row, publish_rows, settle, publish_selected, select_pending, batch_begun, relay_batch,
}
use eventflow_commerce.Messaging.Relay.Prefix.{
  publish_first, first_messages, marked, messages, chosen, marked-chosen, messages-chosen,
  pending_rows_unlocked,
}

module _ {P D V : Type 0} (set : Setting P D V) where
  -- One message for each row, in their order.
  pub data AreCarried : List (Message P) → List (KafkaMessage V) → Type 0 where
    no_messages : AreCarried [] []
    then_carried :
        (m : Message P) (k : KafkaMessage V) (ms : List (Message P)) (ks : List (KafkaMessage V))
        → Carries set m k
        → AreCarried ms ks
        → AreCarried (m ∷ ms) (k ∷ ks)

  -- Nothing stands in the way: no row is locked, every payload is read, every event is written, and
  -- the brokers accept every message.
  pub record IsOpen : Type 0 where
    pub unlocked : (n : ℕ) → set.locked n ≡ false
    pub readable : (p : P) → (d : D) × (set.unmarshal_data p ≡ some d)
    pub writable : (e : KafkaEvent D) → (v : V) × (set.marshal e ≡ some v)
    pub accepted : (k : KafkaMessage V) (n : ℕ) → set.brokers k n ≡ answers

  record Delivered (xs : List (Selected P)) (w : RelayWorld P V) (o : Bool × RelayWorld P V)
      : Type 0 where
    good : o.0 ≡ true
    rows : o.1.view ≡ marked xs w.view
    replies_kept : o.1.replies ≡ w.replies
    carriers : List (KafkaMessage V)
    calls_made : o.1.calls ≡ w.calls ++ carriers
    carried : AreCarried (messages xs) carriers

  module _ (op : IsOpen) where
    publish_data-Carries :
        (m : Message P) (w : RelayWorld P V)
        → (k : KafkaMessage V) × (publish_data set m (set.unmarshal_data m.payload) w
            ≡ (ok tt, log_call k w))
          × Carries set m k
    unfolding publish write_message
    publish_data-Carries m w =
        let r : (d : D) × (set.unmarshal_data m.payload ≡ some d) = op.readable m.payload in
        let e : KafkaEvent D = completed (set.fresh w.clock) (set.now w.clock) (event_of m r.0) in
        let b : (v : V) × (set.marshal e ≡ some v) = op.writable e in
        let k : KafkaMessage V = message_of m.topic e b.0 in
        (
          k,
          rw (r.1, publish, b.1, write_message, op.accepted k w.clock) refl,
          record {
            data_of = r.0;
            given_id = set.fresh w.clock;
            given_time = set.now w.clock;
            bytes = b.0;
            reads = r.1;
            writes = b.1;
            same = refl;
          },
        )

    abbrev after_row : ℕ → KafkaMessage V → RelayWorld P V → RelayWorld P V
    after_row n k w = record (tick (log_call k w)) { view = update_at n as_published w.view }

    publish_row-Carries :
        (n : ℕ) (m : Message P) (w : RelayWorld P V)
        → ((t : ℕ) → w.replies t ≡ answers)
        → (k : KafkaMessage V) × (publish_row set true (n, m) w ≡ (true, after_row n k w))
          × Carries set m k
    unfolding publish_row mark_row
    publish_row-Carries n m w h =
        let p : (k : KafkaMessage V) × (publish_data set m (set.unmarshal_data m.payload) w
              ≡ (ok tt, log_call k w))
            × Carries set m k =
          publish_data-Carries m w in
        (p.0, rw (p.1, mark_by, mark_row, h w.clock) refl, p.2)

    further-Delivered :
        (n : ℕ) (m : Message P) (xs : List (Selected P)) (w : RelayWorld P V) (k : KafkaMessage V)
        (o : Bool × RelayWorld P V)
        → Carries set m k
        → Delivered xs (after_row n k w) o
        → Delivered ((n, m) ∷ xs) w o
    further-Delivered n m xs w k o c d = record {
      good = d.good;
      rows = d.rows;
      replies_kept = d.replies_kept;
      carriers = k ∷ d.carriers;
      calls_made = d.calls_made ∙ append_assoc w.calls (k ∷ []) d.carriers;
      carried = AreCarried.then_carried m k (messages xs) d.carriers c d.carried;
    }

    publish_rows-Delivered :
        (xs : List (Selected P)) (w : RelayWorld P V)
        → ((t : ℕ) → w.replies t ≡ answers)
        → Delivered xs w (publish_rows set xs (true, w))
    unfolding publish_rows
    publish_rows-Delivered [] w h = record {
      good = refl;
      rows = refl;
      replies_kept = refl;
      carriers = [];
      calls_made = sym (append-nil w.calls);
      carried = AreCarried.no_messages;
    }
    publish_rows-Delivered ((n, m) ∷ xs) w h =
        let p : (k : KafkaMessage V) × (publish_row set true (n, m) w ≡ (true, after_row n k w))
            × Carries set m k =
          publish_row-Carries n m w h in
        further-Delivered n m xs w p.0 _ p.2
          (rw p.1 (publish_rows-Delivered xs (after_row n p.0 w) h))

    -- What a batch has done.
    pub record Relayed (w : RelayWorld P V) (o : Result (Unit {0}) × RelayWorld P V) : Type 0 where
      pub no_error : o.0 ≡ ok tt
      pub rows_after : o.1.committed ≡ publish_first set.batch_size w.committed
      pub replies_after : o.1.replies ≡ w.replies
      pub messages_sent : List (KafkaMessage V)
      pub calls_after : o.1.calls ≡ w.calls ++ messages_sent
      pub in_order : AreCarried (first_messages set.batch_size w.committed) messages_sent

    settle-Relayed :
        (w v : RelayWorld P V) (o : Bool × RelayWorld P V)
        → ((t : ℕ) → w.replies t ≡ answers)
        → v.replies ≡ w.replies
        → v.view ≡ w.committed
        → v.calls ≡ w.calls
        → Delivered (chosen set.batch_size w.committed) v o
        → Relayed w (settle set o)
    unfolding commit
    settle-Relayed w v (false, u) h r s c d = absurd (cc (d.good))
    settle-Relayed w v (true, u) h r s c d =
        rw (d.replies_kept, r, h u.clock, commit, close)
          (record {
            no_error = refl;
            rows_after = d.rows ∙ rw s (marked-chosen set.batch_size w.committed);
            replies_after = d.replies_kept ∙ r;
            messages_sent = d.carriers;
            calls_after = rw (d.calls_made, c) refl;
            in_order =
                subst (λ ms. AreCarried ms d.carriers) (messages-chosen set.batch_size w.committed)
                  d.carried;
          })

    -- When every call is answered and nothing stands in the way, RelayBatch returns no error, the
    -- first unpublished rows up to the size of the batch are published and no other row changes, and
    -- the brokers have got one message for each of them, in the order of the rows.
    pub relay_batch-Relayed :
        (w : RelayWorld P V) → ((t : ℕ) → w.replies t ≡ answers) → Relayed w (relay_batch set w)
    unfolding relay_batch begin exec
    relay_batch-Relayed w h =
        let v : RelayWorld P V = record (tick w) { view = w.committed } in
        rw (h w.clock, begin, batch_begun, select_pending, h (w.clock + 1), exec, publish_selected)
          (settle-Relayed w (tick v) _ h refl refl refl (
            rw (pending_rows_unlocked set.locked w.committed op.unlocked)
              (publish_rows-Delivered (chosen set.batch_size w.committed) (tick v) h)))
