-- ===== src/Payment/Aggregate/Lifecycle.antt =====
-- The life of a payment under its commands, in any order.
use eventflow_commerce.Common.{
  ℕ, ◌≡◌, refl, sym, ap, subst, ◌∙◌, ◌≤◌, ◌+◌, Bool, true, false, List, [], ◌∷◌, ◌++◌, String,
  arith,
}
use eventflow_commerce.Common.Int.{ℤ}
use eventflow_commerce.Errors.{Result, ok, err, conflict}
use eventflow_commerce.Payment.Aggregate.{
  Status, unset, initiated, completed, failed, refunded, cancelled, Event, Payment,
  payment_initiated, payment_processed, payment_failed, payment_refunded, payment_cancelled, blank,
  apply, initiate, process, fail, refund, cancel, replay,
}

-- The commands on a payment that exists.
pub data Command : Type 0 where
  process_it fail_it refund_it cancel_it : String → Command

unfoldable pub execute : Command → Payment → Result Payment
unfolding process fail refund cancel
execute (process_it x) p = process x p
execute (fail_it x) p = fail x p
execute (refund_it x) p = refund x p
execute (cancel_it x) p = cancel x p

-- The life cycle of the architecture documents, as a relation.
infix 40 ◌⟶◌
pub data ◌⟶◌ : Status → Status → Type 0 where
  capture : initiated ⟶ completed
  decline : initiated ⟶ failed
  withdraw : initiated ⟶ cancelled
  reverse : completed ⟶ refunded

-- What a command that is accepted does.
pub record Moved (p q : Payment) : Type 0 where
  pub along : p.status ⟶ q.status
  pub same_amount : q.amount_cents ≡ p.amount_cents
  pub same_order : q.order_id ≡ p.order_id
  pub event : Event
  pub applied : q ≡ apply event p

-- A command that is accepted moves the payment along an arrow of its life cycle, keeps its amount
-- and its order, and is the application of one event.
pub execute-Moved : (c : Command) (p q : Payment) → execute c p ≡ ok q → Moved p q
unfolding execute
execute-Moved (process_it x) p q h = record {
  along = grind (arith, capture);
  same_amount = ground arith;
  same_order = ground arith;
  event = payment_processed p.id x;
  applied = ground arith;
}
execute-Moved (fail_it x) p q h = record {
  along = grind (arith, decline);
  same_amount = ground arith;
  same_order = ground arith;
  event = payment_failed p.id x;
  applied = ground arith;
}
execute-Moved (refund_it x) p q h = record {
  along = grind (arith, reverse);
  same_amount = ground arith;
  same_order = ground arith;
  event = payment_refunded p.id p.amount_cents x;
  applied = ground arith;
}
execute-Moved (cancel_it x) p q h = record {
  along = grind (arith, withdraw);
  same_amount = ground arith;
  same_order = ground arith;
  event = payment_cancelled p.id x;
  applied = ground arith;
}

-- The statuses that no command leaves.
abbrev pub is_final : Status → Bool
is_final failed = true
is_final refunded = true
is_final cancelled = true
is_final _ = false

-- A payment that failed, was refunded or was cancelled refuses every command with a conflict.
pub execute_final :
    (c : Command) (p : Payment) → is_final p.status ≡ true → execute c p ≡ err conflict
unfolding execute
execute_final (process_it x) p h = ground arith
execute_final (fail_it x) p h = ground arith
execute_final (refund_it x) p h = ground arith
execute_final (cancel_it x) p h = ground arith

abbrev pub kept_on_error : Result Payment → Payment → Payment
kept_on_error (ok q) p = q
kept_on_error (err _) p = p

-- Commands in any order, each refused or accepted.
pub attempt : List Command → Payment → Payment
attempt [] p = p
attempt (c ∷ commands) p = attempt commands (kept_on_error (execute c p) p)

replay-append :
    (events : List Event) (e : Event) (p : Payment)
    → replay (events ++ e ∷ []) p ≡ apply e (replay events p)
unfolding replay
replay-append [] e p = refl
replay-append (x ∷ events) e p = replay-append events e (apply x p)

-- The number of events that lead to a status.
abbrev pub events_to : Status → ℕ
events_to unset = 0
events_to initiated = 1
events_to completed = 2
events_to failed = 2
events_to cancelled = 2
events_to refunded = 3

-- What holds of a payment that was initiated and whose events are still to be saved.
pub record IsSourced (p : Payment) : Type 0 where
  pub replayed : replay p.pending_events blank ≡ p
  pub counted : p.version ≡ events_to p.status
  pub started : 1 ≤ p.version

events_to-⟶ : {s t : Status} → s ⟶ t → events_to t ≡ events_to s + 1
events_to-⟶ capture = refl
events_to-⟶ decline = refl
events_to-⟶ withdraw = refl
events_to-⟶ reverse = refl

pub apply-bookkeeping :
    (e : Event) (p : Payment)
    → ((apply e p).pending_events ≡ p.pending_events ++ e ∷ [])
      × ((apply e p).version ≡ p.version + 1)
unfolding apply
apply-bookkeeping (payment_initiated _ _ _ _ _) p = (refl, refl)
apply-bookkeeping (payment_processed _ _) p = (refl, refl)
apply-bookkeeping (payment_failed _ _) p = (refl, refl)
apply-bookkeeping (payment_refunded _ _ _) p = (refl, refl)
apply-bookkeeping (payment_cancelled _ _) p = (refl, refl)

apply_replayed :
    (e : Event) (p : Payment)
    → replay p.pending_events blank ≡ p
    → replay (apply e p).pending_events blank ≡ apply e p
apply_replayed e p h =
    ap (λ es. replay es blank) (apply-bookkeeping e p).0
    ∙ replay-append p.pending_events e blank
    ∙ ap (apply e) h

Moved-IsSourced : (p q : Payment) → Moved p q → IsSourced p → IsSourced q
Moved-IsSourced p q m h = record {
  replayed =
      subst (λ x. replay x.pending_events blank ≡ x) (sym m.applied)
        (apply_replayed m.event p h.replayed);
  counted = omega (
    arith,
    ap (λ (x : Payment). x.version) m.applied,
    (apply-bookkeeping m.event p).1,
    h.counted,
    events_to-⟶ m.along,
  );
  started = omega (
    arith,
    ap (λ (x : Payment). x.version) m.applied,
    (apply-bookkeeping m.event p).1,
    h.started,
  );
}

pub initiate-IsSourced :
    (fresh order customer : ℕ) (amount : ℤ) (cur : String) (p : Payment)
    → initiate fresh order customer amount cur ≡ ok p
    → IsSourced p
unfolding initiate replay
initiate-IsSourced fresh order customer amount cur p h = ground arith

attempt-IsSourced :
    (commands : List Command) (p : Payment) → IsSourced p → IsSourced (attempt commands p)
unfolding attempt
attempt-IsSourced [] p h = h
attempt-IsSourced (c ∷ commands) p h = attempt-IsSourced commands _ (kept (execute c p) refl)
  where
    kept : (r : Result Payment) → execute c p ≡ r → IsSourced (kept_on_error r p)
    kept (ok q) e = Moved-IsSourced p q (execute-Moved c p q e) h
    kept (err x) e = h

-- A payment that was initiated is the replay of its recorded events, whichever commands were tried
-- on it in whichever order.
pub attempt-replay :
    (fresh order customer : ℕ) (amount : ℤ) (cur : String) (p : Payment) (commands : List Command)
    → initiate fresh order customer amount cur ≡ ok p
    → replay (attempt commands p).pending_events blank ≡ attempt commands p
attempt-replay fresh order customer amount cur p commands h =
    (attempt-IsSourced commands p (initiate-IsSourced fresh order customer amount cur p h)).replayed

events_to-le : (s : Status) → events_to s ≤ 3
events_to-le unset = omega arith
events_to-le _ = omega arith

-- A payment never has more than three events, whichever commands are tried on it, and so never
-- reaches a version at which a snapshot is due.
pub attempt-version :
    (fresh order customer : ℕ) (amount : ℤ) (cur : String) (p : Payment) (commands : List Command)
    → initiate fresh order customer amount cur ≡ ok p
    → (1 ≤ (attempt commands p).version) × ((attempt commands p).version ≤ 3)
attempt-version fresh order customer amount cur p commands h =
    let s = attempt-IsSourced commands p (initiate-IsSourced fresh order customer amount cur p h) in
    (s.started, omega (arith, s.counted, events_to-le (attempt commands p).status))
