-- ===== src/Payment/Store/Streams.antt =====
-- The event stream of an aggregate in the table, against the history that it stands for.
use eventflow_commerce.Common.{
  ℕ, zero, suc, ◌+◌, ◌≤◌, ◌≡◌, refl, Bool, List, [], ◌∷◌, ◌==◌, ltb, length, where_rows,
  where_rows-and, drop, arith,
}
use eventflow_commerce.Errors.{ok}
use eventflow_commerce.Payment.Aggregate.{Event}
use eventflow_commerce.Payment.Codec.{UuidText, unmarshal_event-marshal_event}
use eventflow_commerce.Payment.Store.Tables.{
  EventRow, Tables, event_row, by_version, decode, events_after,
}

abbrev pub of_aggregate : ℕ → EventRow → Bool
of_aggregate id r = r.aggregate == id

module _ (u : UuidText) where
  -- The rows of a history that starts after a version.
  abbrev pub numbered : ℕ → ℕ → List Event → List EventRow
  numbered id v [] = []
  numbered id v (e ∷ events) = event_row u id (v + 1) e ∷ numbered id (v + 1) events

  -- The table holds exactly this history for the aggregate, in its order and with no gap.
  abbrev pub HasHistory : ℕ → List Event → Tables → Type 0
  HasHistory id history t = where_rows (of_aggregate id) t.events ≡ numbered id 0 history

  by_version-numbered :
      (id v : ℕ) (events : List Event) → by_version (numbered id v events) ≡ numbered id v events
  by_version-numbered id v [] = refl
  by_version-numbered id v (e ∷ []) = refl
  by_version-numbered id v (e ∷ f ∷ events) =
      rw (by_version-numbered id (v + 1) (f ∷ events)) (ground arith)

  decode-numbered : (id v : ℕ) (events : List Event) → decode u (numbered id v events) ≡ ok events
  unfolding decode
  decode-numbered id v [] = refl
  decode-numbered id v (e ∷ events) =
      rw (unmarshal_event-marshal_event u e, decode-numbered id (v + 1) events) refl

  all-above :
      (id n v : ℕ) (events : List Event)
      → n ≤ v
      → where_rows (λ r. ltb n r.event_version) (numbered id v events) ≡ numbered id v events
  all-above id n v [] h = refl
  all-above id n v (e ∷ events) h = ground (arith, all-above id n (v + 1) events)

  -- The rows above a version are those of the rest of the history.
  above-numbered :
      (id n v k : ℕ) (events : List Event)
      → n ≡ v + k
      → k ≤ length events
      → where_rows (λ r. ltb n r.event_version) (numbered id v events)
        ≡ numbered id n (drop k events)
  above-numbered id n v zero events e h =
      let p : n ≡ v = omega arith in rw p (all-above id v v events (omega arith))
  above-numbered id n v (suc k) [] e h = absurd (omega arith)
  above-numbered id n v (suc k) (x ∷ events) e h =
      ground (arith, above-numbered id n (v + 1) k events)

  -- `Store.Load` from a version returns the rest of the history.
  pub events_after_lem :
      (id k : ℕ) (history : List Event) (t : Tables)
      → HasHistory id history t
      → k ≤ length history
      → events_after u id k t ≡ ok (drop k history)
  unfolding events_after
  events_after_lem id k history t h le =
      rw
        (
          where_rows-and (of_aggregate id) (λ r. ltb k r.event_version) t.events,
          h,
          above-numbered id k 0 k history (omega arith) le,
          by_version-numbered id k (drop k history),
        )
        (decode-numbered id k (drop k history))
