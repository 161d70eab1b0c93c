-- ===== src/Payment/Store/Snapshots.antt =====
-- `Load` starts from the latest snapshot, and returns what a replay of the whole history would.
use eventflow_commerce.Common.{
  ℕ, ◌≤◌, ◌≡◌, refl, sym, ap, ◌∙◌, subst, Option, none, some, inl, inr, List, [], ◌∷◌, ◌++◌, leb,
  Bool-cases, some_eq, length, where_rows, take, drop, take-append-drop, All, arith,
}
use eventflow_commerce.Payment.Aggregate.{
  Event, payment_initiated, payment_processed, payment_failed, payment_refunded, payment_cancelled,
  Payment, blank, apply, clear_pending, replay,
}
use eventflow_commerce.Payment.Codec.{UuidText}
use eventflow_commerce.Payment.Store.Tables.{
  Tables, SnapshotRow, latest, newer, snapshot_for, latest_snapshot, events_after,
}
use eventflow_commerce.Payment.Store.Repository.{load_rows, found, loaded, base_version}
use eventflow_commerce.Payment.Store.Streams.{HasHistory, events_after_lem}

-- The payment that a history stands for.
abbrev pub payment_of : List Event → Payment
payment_of history = clear_pending (replay history blank)

-- A snapshot is the payment at an earlier version.
pub record IsFaithful (history : List Event) (s : SnapshotRow) : Type 0 where
  pub within : s.snapshot_version ≤ length history
  pub as_replayed : s.snapshot ≡ payment_of (take s.snapshot_version history)

-- The snapshots of an aggregate.
abbrev pub HasFaithful : ℕ → List Event → Tables → Type 0
HasFaithful id history t = All (IsFaithful history) (where_rows (snapshot_for id) t.snapshots)

latest-All {κ} :
    (P : SnapshotRow → Type κ) (rows : List SnapshotRow) (s : SnapshotRow)
    → All P rows
    → latest rows ≡ some s
    → P s
latest-All P [] s h e = absurd (cc)
latest-All P (r ∷ rows) s h e = pick (λ x. latest-All P rows x h.1) (latest rows) refl e
  where
    pick :
        ((x : SnapshotRow) → latest rows ≡ some x → P x)
        → (o : Option SnapshotRow) → latest rows ≡ o
        → some (newer r o) ≡ some s
        → P s
    pick rest none p q = subst P (some_eq q) h.0
    pick rest (some x) p q = elim (Bool-cases (leb x.snapshot_version r.snapshot_version)) [
      | inl e ↦ subst P (some_eq (rw e at q)) h.0
      | inr e ↦ subst P (some_eq (rw e at q)) (rest x p)
    ]

apply-clear :
    (e : Event) (p : Payment)
    → clear_pending (apply e (clear_pending p)) ≡ clear_pending (apply e p)
unfolding apply
apply-clear (payment_initiated _ _ _ _ _) p = refl
apply-clear (payment_processed _ _) p = refl
apply-clear (payment_failed _ _) p = refl
apply-clear (payment_refunded _ _ _) p = refl
apply-clear (payment_cancelled _ _) p = refl

-- What is pending does not matter to a replay.
pub replay-clear :
    (events : List Event) (p q : Payment)
    → clear_pending p ≡ clear_pending q
    → clear_pending (replay events p) ≡ clear_pending (replay events q)
unfolding replay
replay-clear [] p q h = h
replay-clear (e ∷ events) p q h =
    replay-clear events (apply e p) (apply e q)
      (sym (apply-clear e p) ∙ ap (λ x. clear_pending (apply e x)) h ∙ apply-clear e q)

pub replay-append :
    (xs ys : List Event) (p : Payment) → replay (xs ++ ys) p ≡ replay ys (replay xs p)
unfolding replay
replay-append [] ys p = refl
replay-append (x ∷ xs) ys p = replay-append xs ys (apply x p)

rebuilt_from :
    (k : ℕ) (history : List Event)
    → clear_pending (replay (drop k history) (payment_of (take k history))) ≡ payment_of history
rebuilt_from k history =
    replay-clear (drop k history) (payment_of (take k history)) (replay (take k history) blank) refl
    ∙ ap clear_pending (sym (replay-append (take k history) (drop k history) blank))
    ∙ ap payment_of (take-append-drop k history)

module _ (u : UuidText) where
  loaded_lem :
      (id : ℕ) (history : List Event) (t : Tables) (s : Option SnapshotRow)
      → HasHistory u id history t
      → ((r : SnapshotRow) → s ≡ some r → IsFaithful history r)
      → loaded s (events_after u id (base_version s) t) ≡ found (payment_of history)
  loaded_lem id history t none h faithful =
      rw (events_after_lem u id 0 history t h (omega arith)) refl
  loaded_lem id history t (some r) h faithful =
      let f = faithful r refl in
      rw (events_after_lem u id r.snapshot_version history t h f.within) (
        ap found (
          ap (λ x. clear_pending (replay (drop r.snapshot_version history) x)) f.as_replayed
          ∙ rebuilt_from r.snapshot_version history))

  -- If the table holds a history of the aggregate and its snapshots, if there are any, are faithful to
  -- it, what the two queries of `Load` amount to is the replay of the whole history, or that there is
  -- no such payment, whichever snapshot is the latest.
  pub load_rows_lem :
      (id : ℕ) (history : List Event) (t : Tables)
      → HasHistory u id history t
      → HasFaithful id history t
      → load_rows u id t ≡ found (payment_of history)
  unfolding load_rows
  load_rows_lem id history t h faithful = loaded_lem id history t (latest_snapshot id t) h (λ r e.
      latest-All (IsFaithful history) (where_rows (snapshot_for id) t.snapshots) r faithful
        (unfold latest_snapshot in e))
