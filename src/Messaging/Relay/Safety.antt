-- ===== src/Messaging/Relay/Safety.antt =====
-- What the relay records as published, the brokers have.
use eventflow_commerce.Common.{
  ℕ, ◌≡◌, refl, inl, inr, Bool, true, false, Option, none, some, List, [], ◌∷◌, take, All,
}
use eventflow_commerce.Errors.{Error, Result, ok, err}
use eventflow_commerce.Database.{begin, commit, exec, close, tick}
use eventflow_commerce.Database.Actions.{log_call}
use eventflow_commerce.Database.Atomic.{Reply-cases}
use eventflow_commerce.Messaging.Outbox.{Message, OutboxRow}
use eventflow_commerce.Messaging.Publisher.{
  KafkaMessage, completed, message_of, write_message, written, publish,
}
use eventflow_commerce.Messaging.Relay.{
  Selected, pending_rows, as_published, as_failed, RelayWorld, event_of, Setting, mark_row, mark_by,
  publish_data, publish_row, publish_rows, settle, publish_selected, select_pending, batch_begun,
  relay_batch,
}
use eventflow_commerce.Messaging.Relay.Backed.{
  Carries, IsBacked, AreBacked, AreBacked-refl, AreBacked-more, Stands, pending_rows-Stands,
  All-take, update_at-AreBacked,
}

module _ {P D V : Type 0} (set : Setting P D V) where
  -- How a publication ends.
  data Published (m : Message P) (w : RelayWorld P V)
      : Result (Unit {0}) × RelayWorld P V → Type 0 where
    sent : (k : KafkaMessage V) → Carries set m k → Published m w (ok tt, log_call k w)
    refused : (e : Error) → Published m w (err e, w)
    unsure : (e : Error) (k : KafkaMessage V) → Published m w (err e, log_call k w)

  written-Published :
      (m : Message P) (d : D) (id time : ℕ) (w : RelayWorld P V) (bytes : Option V)
      → set.unmarshal_data m.payload ≡ some d
      → set.marshal (completed id time (event_of m d)) ≡ bytes
      → Published m w (written set.brokers m.topic (completed id time (event_of m d)) bytes w)
  unfolding write_message
  written-Published m d id time w none r b = Published.refused _
  written-Published m d id time w (some v) r b =
      let k : KafkaMessage V = message_of m.topic (completed id time (event_of m d)) v in
      elim (Reply-cases (set.brokers k w.clock)) [
        | inl e ↦
            rw (e, write_message)
              (Published.sent k (record {
                data_of = d;
                given_id = id;
                given_time = time;
                bytes = v;
                reads = r;
                writes = b;
                same = refl;
              }))
        | inr (inl e) ↦ rw (e, write_message) (Published.refused _)
        | inr (inr e) ↦ rw (e, write_message) (Published.unsure _ k)
      ]

  publish_data-Published :
      (m : Message P) (w : RelayWorld P V) (d : Option D)
      → set.unmarshal_data m.payload ≡ d
      → Published m w (publish_data set m d w)
  unfolding publish
  publish_data-Published m w none r = Published.refused _
  publish_data-Published m w (some d) r =
      written-Published m d (set.fresh w.clock) (set.now w.clock) w _ r refl

  -- What holds in the loop, over the rows that the transaction found.
  record Going (start : List (OutboxRow P)) (w : RelayWorld P V) : Type 0 where
    pub backed : AreBacked set w.calls start w.view
    pub unchanged : w.committed ≡ start

  mark_row-Going :
      (start : List (OutboxRow P)) (good : Bool) (n : ℕ) (m : Message P)
      (f : OutboxRow P → OutboxRow P) (w : RelayWorld P V)
      → Stands start (n, m)
      → ((old new : OutboxRow P)
          → old.message ≡ m
          → IsBacked set w.calls old new
          → IsBacked set w.calls old (f new))
      → Going start w
      → Going start (mark_row set good n f w).1
  unfolding mark_row
  mark_row-Going start false n m f w s h g = record { backed = g.backed; unchanged = g.unchanged }
  mark_row-Going start true n m f w s h g = elim (Reply-cases (w.replies w.clock)) [
    | inl e ↦
        rw (e, mark_row)
          (record {
            backed = update_at-AreBacked set w.calls f n m start w.view s h g.backed;
            unchanged = g.unchanged;
          })
    | inr (inl e) ↦ rw (e, mark_row) (record { backed = g.backed; unchanged = g.unchanged })
    | inr (inr e) ↦ rw (e, mark_row) (record { backed = g.backed; unchanged = g.unchanged })
  ]

  logged-Going :
      (start : List (OutboxRow P)) (k : KafkaMessage V) (w : RelayWorld P V)
      → Going start w
      → Going start (log_call k w)
  logged-Going start k w g = record {
    backed = AreBacked-more set w.calls (k ∷ []) start w.view g.backed;
    unchanged = g.unchanged;
  }

  mark_by-Going :
      (start : List (OutboxRow P)) (good : Bool) (n : ℕ) (m : Message P) (w : RelayWorld P V)
      (o : Result (Unit {0}) × RelayWorld P V)
      → Published m w o
      → Stands start (n, m)
      → Going start w
      → Going start (mark_by set good n o).1
  mark_by-Going start good n m w _ (Published.sent k c) s g =
      mark_row-Going start good n m as_published (log_call k w) s
        (λ old new e b. (b.0, inr (w.calls, k, [], refl, rw e c))) (logged-Going start k w g)
  mark_by-Going start good n m w _ (Published.refused e) s g =
      mark_row-Going start good n m as_failed w s (λ old new e b. b) g
  mark_by-Going start good n m w _ (Published.unsure e k) s g =
      mark_row-Going start good n m as_failed (log_call k w) s (λ old new e b. b)
        (logged-Going start k w g)

  publish_rows-Going :
      (start : List (OutboxRow P)) (rows : List (Selected P)) (good : Bool) (w : RelayWorld P V)
      → All (Stands start) rows
      → Going start w
      → Going start (publish_rows set rows (good, w)).1
  unfolding publish_rows publish_row
  publish_rows-Going start [] good w s g = g
  publish_rows-Going start ((n, m) ∷ rows) good w s g =
      let d : Result (Unit {0}) × RelayWorld P V =
        publish_data set m (set.unmarshal_data m.payload) w in
      publish_rows-Going start rows (mark_by set good n d).0 (mark_by set good n d).1 s.1
        (mark_by-Going start good n m w d (publish_data-Published m w _ refl) s.0 g)

  settle-AreBacked :
      (start : List (OutboxRow P)) (good : Bool) (w : RelayWorld P V)
      → Going start w
      → AreBacked set (settle set (good, w)).1.calls start (settle set (good, w)).1.committed
  unfolding commit
  settle-AreBacked start false w g = rw g.unchanged (AreBacked-refl set w.calls start)
  settle-AreBacked start true w g = elim (Reply-cases (w.replies w.clock)) [
    | inl e ↦ rw (e, commit, close) g.backed
    | inr (inl e) ↦ rw (e, commit, close, g.unchanged) (AreBacked-refl set w.calls start)
    | inr (inr e) ↦ rw (e, commit, close) g.backed
  ]

  select_pending-AreBacked :
      (w : RelayWorld P V)
      → w.view ≡ w.committed
      → AreBacked set
          (publish_selected set (select_pending set w)).1.calls
          w.committed
          (publish_selected set (select_pending set w)).1.committed
  unfolding exec
  select_pending-AreBacked w h = elim (Reply-cases (w.replies w.clock)) [
    | inl e ↦
        let rows : List (Selected P) = take set.batch_size (pending_rows set.locked w.view) in
        let o : Bool × RelayWorld P V = publish_rows set rows (true, tick w) in
        rw (e, exec, publish_selected)
          (settle-AreBacked w.committed o.0 o.1 (
            publish_rows-Going w.committed rows true (tick w)
              (rw h (
                All-take (Stands w.committed) set.batch_size _
                  (pending_rows-Stands set.locked w.committed)))
              (record {
                backed = rw h (AreBacked-refl set w.calls w.committed);
                unchanged = refl;
              })))
    | inr (inl e) ↦ rw (e, exec, publish_selected) (AreBacked-refl set w.calls w.committed)
    | inr (inr e) ↦ rw (e, exec, publish_selected) (AreBacked-refl set w.calls w.committed)
  ]

  -- Whatever the database and the brokers answer, after RelayBatch the committed table has the same
  -- rows in the same order, with their messages, and a row is published only if it was published
  -- before or the brokers have a message that carries it.
  pub relay_batch-AreBacked :
      (w : RelayWorld P V)
      → AreBacked set (relay_batch set w).1.calls w.committed (relay_batch set w).1.committed
  unfolding relay_batch begin
  relay_batch-AreBacked w = elim (Reply-cases (w.replies w.clock)) [
    | inl e ↦
        rw (e, begin, batch_begun)
          (select_pending-AreBacked (record (tick w) { view = w.committed }) refl)
    | inr (inl e) ↦ rw (e, begin, batch_begun) (AreBacked-refl set w.calls w.committed)
    | inr (inr e) ↦ rw (e, begin, batch_begun) (AreBacked-refl set w.calls w.committed)
  ]
