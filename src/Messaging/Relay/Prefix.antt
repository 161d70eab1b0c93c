-- ===== src/Messaging/Relay/Prefix.antt =====
-- An independent description of a batch on the rows alone, and the rows that the relay chooses.
use eventflow_commerce.Common.{
  ℕ, zero, suc, ◌≡◌, refl, ap, Bool, false, Bool-cases, inl, inr, List, [], ◌∷◌, map, take,
  if◌then◌else◌,
}
use eventflow_commerce.Messaging.Outbox.{Message, OutboxRow}
use eventflow_commerce.Messaging.Relay.{
  Selected, update_at, one_further, pending_rows, as_published,
}

module _ {P : Type 0} where
  -- The rows after a batch: the first unpublished rows, at most so many, are published.
  unfoldable pub publish_first : ℕ → List (OutboxRow P) → List (OutboxRow P)
  publish_first zero rows = rows
  publish_first (suc n) [] = []
  publish_first (suc n) (r ∷ rows) =
      if r.published then r ∷ publish_first (suc n) rows else as_published r ∷ publish_first n rows

  -- The messages of those rows.
  unfoldable pub first_messages : ℕ → List (OutboxRow P) → List (Message P)
  first_messages zero rows = []
  first_messages (suc n) [] = []
  first_messages (suc n) (r ∷ rows) =
      if r.published then first_messages (suc n) rows else r.message ∷ first_messages n rows

  abbrev pub marked : List (Selected P) → List (OutboxRow P) → List (OutboxRow P)
  marked [] rows = rows
  marked ((n, m) ∷ xs) rows = marked xs (update_at n as_published rows)

  abbrev pub messages : List (Selected P) → List (Message P)
  messages [] = []
  messages ((n, m) ∷ xs) = m ∷ messages xs

  marked-further :
      (xs : List (Selected P)) (r : OutboxRow P) (rows : List (OutboxRow P))
      → marked (map one_further xs) (r ∷ rows) ≡ r ∷ marked xs rows
  marked-further [] r rows = refl
  marked-further ((n, m) ∷ xs) r rows = marked-further xs r (update_at n as_published rows)

  messages-further : (xs : List (Selected P)) → messages (map one_further xs) ≡ messages xs
  messages-further [] = refl
  messages-further ((n, m) ∷ xs) = ap (λ r. m ∷ r) (messages-further xs)

  take-further :
      (k : ℕ) (xs : List (Selected P)) → take k (map one_further xs) ≡ map one_further (take k xs)
  take-further zero xs = refl
  take-further (suc k) [] = refl
  take-further (suc k) (x ∷ xs) = ap (λ r. one_further x ∷ r) (take-further k xs)

  -- The rows that the relay selects, when no other transaction holds any.
  abbrev pub chosen : ℕ → List (OutboxRow P) → List (Selected P)
  chosen k rows = take k (pending_rows (λ n. false) rows)

  pub marked-chosen :
      (k : ℕ) (rows : List (OutboxRow P)) → marked (chosen k rows) rows ≡ publish_first k rows
  unfolding pending_rows publish_first
  marked-chosen zero rows = refl
  marked-chosen (suc k) [] = refl
  marked-chosen (suc k) (r ∷ rows) = elim (Bool-cases r.published) [
    | inl e ↦
        rw (e, take-further (suc k) (pending_rows (λ n. false) rows), marked-further)
          (ap (λ t. as_published r ∷ t) (marked-chosen (suc k) rows))
    | inr e ↦
        rw (e, take-further k (pending_rows (λ n. false) rows), marked-further)
          (ap (λ t. as_published r ∷ t) (marked-chosen k rows))
  ]

  pub messages-chosen :
      (k : ℕ) (rows : List (OutboxRow P)) → messages (chosen k rows) ≡ first_messages k rows
  unfolding pending_rows first_messages
  messages-chosen zero rows = refl
  messages-chosen (suc k) [] = refl
  messages-chosen (suc k) (r ∷ rows) = elim (Bool-cases r.published) [
    | inl e ↦
        rw (e, take-further (suc k) (pending_rows (λ n. false) rows), messages-further)
          (messages-chosen (suc k) rows)
    | inr e ↦
        rw (e, take-further k (pending_rows (λ n. false) rows), messages-further)
          (ap (λ t. r.message ∷ t) (messages-chosen k rows))
  ]

  pub pending_rows_unlocked :
      (locked : ℕ → Bool) (rows : List (OutboxRow P))
      → ((n : ℕ) → locked n ≡ false)
      → pending_rows locked rows ≡ pending_rows (λ n. false) rows
  unfolding pending_rows
  pending_rows_unlocked locked [] h = refl
  pending_rows_unlocked locked (r ∷ rows) h =
      rw (h 0, pending_rows_unlocked (λ n. locked (suc n)) rows (λ n. h (suc n))) refl
