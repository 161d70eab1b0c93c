-- ===== src/Payment/Store/Appending.antt =====
-- `Append` against the history of the aggregate.
use mathlib.Core.List.{append-nil, append_assoc}
use eventflow_commerce.Common.{
  ℕ, zero, suc, ◌+◌, ◌<◌, ◌≡◌, refl, sym, ap, ◌∙◌, subst, Bool, true, false, ◌&&◌, List, [], ◌∷◌,
  ◌++◌, ◌==◌, length, length-append, where_rows, where_rows-append, any_row, arith,
}
use eventflow_commerce.Errors.{ok, err, conflict}
use eventflow_commerce.Database.{run}
use eventflow_commerce.Database.Atomic.{run-bind, continue}
use eventflow_commerce.Payment.Aggregate.{Event}
use eventflow_commerce.Payment.Codec.{UuidText}
use eventflow_commerce.Payment.Store.Tables.{Tables, event_row, same_version, insert_event, append}
use eventflow_commerce.Payment.Store.Streams.{of_aggregate, numbered, HasHistory}

any_row-and :
    {A : Type 0} (p q : A → Bool) (xs : List A)
    → any_row (λ x. p x && q x) xs ≡ any_row q (where_rows p xs)
any_row-and p q [] = refl
any_row-and p q (x ∷ xs) = ground (arith, any_row-and p q xs)

module _ (u : UuidText) where
  -- A version above the history is free, and one within it is taken.
  free_version :
      (id v n : ℕ) (events : List Event)
      → v + length events < n
      → any_row (λ r. r.event_version == n) (numbered u id v events) ≡ false
  free_version id v n [] h = refl
  free_version id v n (e ∷ events) h = ground (arith, free_version id (v + 1) n events)

  taken_version :
      (id v k : ℕ) (events : List Event)
      → k < length events
      → any_row (λ r. r.event_version == (v + k + 1)) (numbered u id v events) ≡ true
  taken_version id v k [] h = absurd (omega arith)
  taken_version id v zero (e ∷ events) h = ground arith
  taken_version id v (suc k) (e ∷ events) h =
      let p : v + 1 + k + 1 ≡ v + suc k + 1 = omega arith in
      let ih =
        subst (λ n. any_row (λ r. r.event_version == n) (numbered u id (v + 1) events) ≡ true) p
          (taken_version id (v + 1) k events (omega arith)) in
      ground arith

  numbered-append :
      (id v : ℕ) (xs ys : List Event)
      → numbered u id v (xs ++ ys) ≡ numbered u id v xs ++ numbered u id (v + length xs) ys
  numbered-append id v [] ys = ap (λ n. numbered u id n ys) (omega arith)
  numbered-append id v (x ∷ xs) ys =
      ap (λ rows. event_row u id (v + 1) x ∷ rows)
        (numbered-append id (v + 1) xs ys
          ∙ ap (λ n. numbered u id (v + 1) xs ++ numbered u id n ys) (omega arith))

  where_rows-numbered :
      (id v : ℕ) (events : List Event)
      → where_rows (of_aggregate id) (numbered u id v events) ≡ numbered u id v events
  where_rows-numbered id v [] = refl
  where_rows-numbered id v (e ∷ events) = ground (arith, where_rows-numbered id (v + 1) events)

  -- The rows after `Append`.
  abbrev pub appended : ℕ → List Event → List Event → Tables → Tables
  appended id history events t = record t {
    events = t.events ++ numbered u id (length history) events;
  }

  pub appended-HasHistory :
      (id : ℕ) (history events : List Event) (t : Tables)
      → HasHistory u id history t
      → HasHistory u id (history ++ events) (appended id history events t)
  appended-HasHistory id history events t h =
      rw
        (
          where_rows-append (of_aggregate id) t.events,
          h,
          where_rows-numbered id (length history) events,
        )
        (sym (
          numbered-append id 0 history events
          ∙ ap (λ n. numbered u id 0 history ++ numbered u id n events) (omega arith)))

  version_free :
      (id : ℕ) (history : List Event) (t : Tables)
      → HasHistory u id history t
      → any_row (same_version id (length history + 1)) t.events ≡ false
  version_free id history t h =
      any_row-and (of_aggregate id) (λ r. r.event_version == (length history + 1)) t.events
      ∙ ap (any_row (λ r. r.event_version == (length history + 1))) h
      ∙ free_version id 0 (length history + 1) history (omega arith)

  insert_event_lem :
      (id : ℕ) (history : List Event) (e : Event) (t : Tables)
      → HasHistory u id history t
      → run (insert_event u id (length history + 1) e) t ≡ (ok tt, appended id history (e ∷ []) t)
  unfolding insert_event run
  insert_event_lem id history e t h = ground (arith, version_free id history t h)

  -- `Append` after the whole history takes every event.
  pub run-append :
      (id : ℕ) (history events : List Event) (t : Tables)
      → HasHistory u id history t
      → run (append u id (length history) events) t ≡ (ok tt, appended id history events t)
  unfolding append
  run-append id history [] t h =
      unfold run in ap (λ rows. (ok tt, record t { events = rows })) (sym (append-nil t.events))
  run-append id history (e ∷ events) t h =
      let t' : Tables = appended id history (e ∷ []) t in
      let len : length (history ++ e ∷ []) ≡ length history + 1 =
        length-append {0} history (e ∷ []) in
      let ih : run (append u id (length history + 1) events) t'
          ≡ (ok tt, record t' { events = t'.events ++ numbered u id (length history + 1) events }) =
        subst
          (λ n.
            run (append u id n events) t'
            ≡ (ok tt, record t' { events = t'.events ++ numbered u id n events }))
          len
          (run-append id (history ++ e ∷ []) events t'
            (appended-HasHistory id history (e ∷ []) t h)) in
      rw (run-bind, insert_event_lem id history e t h, continue)
        (ih ∙ ap (λ rows. (ok tt, record t { events = rows })) (append_assoc t.events _ _))

  version_taken :
      (id expected : ℕ) (e : Event) (history : List Event) (t : Tables)
      → HasHistory u id history t
      → expected < length history
      → run (insert_event u id (expected + 1) e) t ≡ (err conflict, t)
  unfolding insert_event run
  version_taken id expected e history t h behind =
      let taken : any_row (same_version id (expected + 1)) t.events ≡ true =
        any_row-and (of_aggregate id) (λ r. r.event_version == (expected + 1)) t.events
        ∙ ap (any_row (λ r. r.event_version == (expected + 1))) h
        ∙ subst (λ n. any_row (λ r. r.event_version == n) (numbered u id 0 history) ≡ true)
            (omega arith) (taken_version id 0 expected history behind) in
      rw taken refl

  -- `Append` behind the history: another writer has taken the version, and nothing is written.
  pub append_stale :
      (id expected : ℕ) (e : Event) (history rest : List Event) (t : Tables)
      → HasHistory u id history t
      → expected < length history
      → run (append u id expected (e ∷ rest)) t ≡ (err conflict, t)
  unfolding append
  append_stale id expected e history rest t h behind =
      rw (run-bind, version_taken id expected e history t h behind, continue) refl
