-- ===== src/Payment/Store/Saving.antt =====
-- `Save` against the history of the aggregate, and the round trip with `Load`.
use mathlib.Core.List.{append-nil}
use eventflow_commerce.Common.{
  ℕ, ◌+◌, ◌-◌, ◌≡◌, ◌≢◌, refl, sym, ap, ◌∙◌, subst, inl, inr, Bool, Bool-cases, true, false, List,
  [], ◌∷◌, ◌++◌, ==_refl, length, length-append, take-length, any_row, take, take-append, All-map,
  if◌then◌else◌, arith,
}
use eventflow_commerce.Errors.{Result, ok, err}
use eventflow_commerce.Database.{◌>>◌, run, World, Action, in_tx}
use eventflow_commerce.Database.Atomic.{Split, bind-Split, in_tx-ok}
use eventflow_commerce.Database.Preserves.{
  Preserves, Preserves-done, Preserves-call, Preserves-bind, Preserves-if,
}
use eventflow_commerce.Database.Actions
use eventflow_commerce.Payment.Aggregate.{Event, Payment, clear_pending}
use eventflow_commerce.Payment.Codec.{UuidText}
use eventflow_commerce.Payment.Store.Tables.{SnapshotRow, Tables, append, is_nil}
use eventflow_commerce.Payment.Store.Projection.{
  project, project_all, enqueue, enqueue_all, payment_message, same_snapshot, save_snapshot,
  snapshot_if_due, snapshot_row,
}
use eventflow_commerce.Payment.Store.Repository.{save_body, save, load_rows, found}
use eventflow_commerce.Payment.Store.Streams.{HasHistory}
use eventflow_commerce.Payment.Store.Snapshots.{payment_of, IsFaithful, HasFaithful, load_rows_lem}
use eventflow_commerce.Payment.Store.Appending.{appended, appended-HasHistory, run-append}

-- The statements that write no event and no snapshot.
abbrev SameStream : Tables → Tables → Type 0
SameStream t v = (v.events ≡ t.events) × (v.snapshots ≡ t.snapshots)

project_all-SameStream :
    (t : Tables) (p : Payment) (events : List Event)
    → Preserves (SameStream t) (project_all p events)
unfolding project_all project
project_all-SameStream t p [] = Preserves-done (ok tt)
project_all-SameStream t p (e ∷ events) =
    Preserves-bind (project p e) _ (Preserves-call _ _ (λ v h. ground arith))
      (λ _. project_all-SameStream t p events)

enqueue_all-SameStream :
    (t : Tables) (p : Payment) (events : List Event)
    → Preserves (SameStream t) (enqueue_all p events)
unfolding enqueue_all enqueue
enqueue_all-SameStream t p [] = Preserves-done (ok tt)
enqueue_all-SameStream t p (e ∷ events) =
    Preserves-bind (enqueue (payment_message p e)) _ (Preserves-call _ _ (λ v h. h))
      (λ _. enqueue_all-SameStream t p events)

module _ (u : UuidText) where
  -- The table stands for the history of the aggregate, and its snapshots are faithful to it.
  pub record Stands (id : ℕ) (history : List Event) (t : Tables) : Type 0 where
    pub stream : HasHistory u id history t
    pub faithful : HasFaithful id history t

  snapshot_row-IsFaithful :
      (p : Payment) (history : List Event)
      → p.version ≡ length history
      → clear_pending p ≡ payment_of history
      → IsFaithful history (snapshot_row p)
  snapshot_row-IsFaithful p history version replayed = record {
    within = omega arith;
    as_replayed =
        replayed
        ∙ ap payment_of (sym (take-length history))
        ∙ ap (λ n. payment_of (take n history)) (sym version);
  }

  snapshot-Stands :
      (p : Payment) (history : List Event)
      → p.version ≡ length history
      → clear_pending p ≡ payment_of history
      → Preserves (Stands p.id history) (snapshot_if_due p)
  unfolding snapshot_if_due save_snapshot
  snapshot-Stands p history version replayed =
      Preserves-if _ _ _
        (Preserves-call _ _ (λ t h. elim (Bool-cases (any_row (same_snapshot p) t.snapshots)) [
          | inl e ↦ rw e h
          | inr e ↦ rw e (record {
            stream = h.stream;
            faithful =
                rw (==_refl p.id) (snapshot_row-IsFaithful p history version replayed, h.faithful);
          })
        ]))
        (Preserves-done (ok tt))

  -- A longer history has the same earlier versions.
  IsFaithful-append :
      (history events : List Event) (s : SnapshotRow)
      → IsFaithful history s
      → IsFaithful (history ++ events) s
  IsFaithful-append history events s h = record {
    within = omega (arith, length-append {0} history events, h.within);
    as_replayed =
        h.as_replayed
        ∙ ap payment_of (sym (take-append s.snapshot_version history events h.within));
  }

  appended-Stands :
      (id : ℕ) (history events : List Event) (t : Tables)
      → Stands id history t
      → Stands id (history ++ events) (appended u id history events t)
  appended-Stands id history events t h = record {
    stream = appended-HasHistory u id history events t h.stream;
    faithful = All-map _ (IsFaithful-append history events) h.faithful;
  }

  SameStream-Stands :
      (id : ℕ) (history : List Event) (t v : Tables)
      → SameStream t v
      → Stands id history t
      → Stands id history v
  SameStream-Stands id history t v (se, ss) h = record {
    stream = rw se h.stream;
    faithful = rw ss h.faithful;
  }

  save_body-Stands :
      (p : Payment) (history : List Event) (t v : Tables)
      → p.version ≡ length history + length p.pending_events
      → clear_pending p ≡ payment_of (history ++ p.pending_events)
      → Stands p.id history t
      → run (save_body u p) t ≡ (ok tt, v)
      → Stands p.id (history ++ p.pending_events) v
  unfolding save_body
  save_body-Stands p history t v version replayed h e =
      let es = p.pending_events in
      let len : p.version - length es ≡ length history = omega arith in
      let a : Split (append u p.id (p.version - length es) es)
          (λ _. project_all p es >> (enqueue_all p es >> snapshot_if_due p)) t tt v =
        bind-Split _ _ t tt v e in
      let b : Split (project_all p es) (λ _. enqueue_all p es >> snapshot_if_due p) a.middle tt v =
        bind-Split _ _ a.middle tt v a.second in
      let c : Split (enqueue_all p es) (λ _. snapshot_if_due p) b.middle tt v =
        bind-Split _ _ b.middle tt v b.second in
      let m : a.middle ≡ appended u p.id history es t =
        ap (λ (o : Result (Unit {0}) × Tables). o.1)
          (sym (subst (λ n. run (append u p.id n es) t ≡ (ok a.between, a.middle)) len a.first)
            ∙ run-append u p.id history es t h.stream) in
      let s : SameStream a.middle c.middle =
        (enqueue_all-SameStream a.middle p es).keep b.middle c.middle c.between c.first (
          (project_all-SameStream a.middle p es).keep a.middle b.middle b.between b.first
            (refl, refl)) in
      (snapshot-Stands p (history ++ es) (omega (arith, length-append {0} history es))
          replayed).keep
        c.middle v tt c.second
        (SameStream-Stands p.id (history ++ es) a.middle c.middle s
          (subst (Stands p.id (history ++ es)) (sym m) (appended-Stands p.id history es t h)))

module _ {C : Type 0} {A B : Type 0} where
  resume_state :
      (b : B) (o : Result A × World Tables C) → (Actions.resume (λ _. Actions.return b) o).1 ≡ o.1
  resume_state b (ok a, w) = refl
  resume_state b (err e, w) = refl

  resume_ok :
      (b c : B) (o : Result A × World Tables C)
      → (Actions.resume (λ _. Actions.return b) o).0 ≡ ok c
      → (a : A) × (o.0 ≡ ok a)
  resume_ok b c (ok a, w) h = (a, refl)
  resume_ok b c (err e, w) h = absurd (cc)

found_some : (p : Payment) → p.id ≢ 0 → found p ≡ ok p
found_some p h = ground arith

module _ (u : UuidText) {C : Type 0} (p : Payment) (history : List Event) (w : World Tables C)
    (version : p.version ≡ length history + length p.pending_events)
    (replayed : clear_pending p ≡ payment_of (history ++ p.pending_events))
    (stands : Stands u p.id history w.committed) where
  save_none :
      (es : List Event)
      → p.pending_events ≡ es
      → is_nil es ≡ true
      → Stands u p.id (history ++ p.pending_events) w.committed
  save_none [] e h =
      subst (λ es. Stands u p.id (history ++ es) w.committed) (sym e)
        (subst (λ es. Stands u p.id es w.committed) (sym (append-nil history)) stands)
  save_none (x ∷ es) e h = absurd (cc)

  save_some :
      (a : Unit {0})
      → (in_tx (save_body u p) w).0 ≡ ok a
      → Stands u p.id (history ++ p.pending_events) (in_tx (save_body u p) w).1.committed
  save_some a h =
      save_body-Stands u p history w.committed _ version replayed stands
        (in_tx-ok (save_body u p) w a h)

  abbrev saving : Bool → Action Tables C Payment
  saving none_pending =
      if none_pending
      then Actions.return p
      else Actions.◌>>=◌ (in_tx (save_body u p)) (λ _. Actions.return (clear_pending p))

  saving-Stands :
      (none_pending : Bool) (q : Payment)
      → is_nil p.pending_events ≡ none_pending
      → (saving none_pending w).0 ≡ ok q
      → Stands u p.id (history ++ p.pending_events) (saving none_pending w).1.committed
  saving-Stands true q e h = save_none p.pending_events refl e
  saving-Stands false q e h =
      let o = in_tx (save_body u p) w in
      let (a, done) = resume_ok (clear_pending p) q o h in
      subst (λ v. Stands u p.id (history ++ p.pending_events) v.committed)
        (sym (resume_state (clear_pending p) o)) (save_some a done)

  -- If the table stands for a history, and the payment, whose id is not nil, has the version and the
  -- state of that history with the pending events behind it, then after a `Save` without an error
  -- the table stands for the longer history, and the rows that `Load` reads there rebuild the payment
  -- that was saved.
  pub save-load :
      (q : Payment)
      → p.id ≢ 0
      → (save u p w).0 ≡ ok q
      → Stands u p.id (history ++ p.pending_events) (save u p w).1.committed
        × (load_rows u p.id (save u p w).1.committed ≡ ok (clear_pending p))
  unfolding save
  save-load q some_id saved =
      let s : Stands u p.id (history ++ p.pending_events) (save u p w).1.committed =
        saving-Stands (is_nil p.pending_events) q refl saved in
      (
        s,
        load_rows_lem u p.id (history ++ p.pending_events) (save u p w).1.committed s.stream
              s.faithful
            ∙ ap found (sym replayed)
            ∙ found_some (clear_pending p) some_id,
      )
