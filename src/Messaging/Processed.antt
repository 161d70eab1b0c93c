-- ===== src/Messaging/Processed.antt =====
-- shared/libs/go/events/processed.go: the identifiers of the events that a consumer has handled.
use eventflow_commerce.Common.{ℕ, Bool, List, ◌∷◌, ◌==◌, any_row, if◌then◌else◌}

-- `WasProcessed`
abbrev pub was_processed : ℕ → List ℕ → Bool
was_processed event_id rows = any_row (λ row. row == event_id) rows

-- `MarkProcessed`: `INSERT ... ON CONFLICT DO NOTHING`; the rows after it, and whether it
-- inserted one.
abbrev pub mark_processed : ℕ → List ℕ → List ℕ
mark_processed event_id rows = if was_processed event_id rows then rows else event_id ∷ rows
