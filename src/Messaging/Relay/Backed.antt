-- ===== src/Messaging/Relay/Backed.antt =====
-- Rows of the outbox that the brokers have a message for.
use eventflow_commerce.Common.{
  ℕ, zero, suc, ◌≡◌, refl, ◌⊎◌, inl, inr, Bool, true, false, not, ◌&&◌, Bool-cases, some, List, [],
  ◌∷◌, ◌++◌, map, take, All,
}
use mathlib.Core.List.{append_assoc}
use eventflow_commerce.Messaging.Outbox.{Message, OutboxRow}
use eventflow_commerce.Messaging.Publisher.{KafkaMessage, completed, message_of}
use eventflow_commerce.Messaging.Relay.{
  Selected, update_at, one_further, pending_rows, event_of, Setting,
}

module _ {P : Type 0} where
  -- The row at a place has this message.
  abbrev pub Stands : List (OutboxRow P) → Selected P → Type 0
  Stands [] s = true ≡ false
  Stands (r ∷ rows) (zero, m) = r.message ≡ m
  Stands (r ∷ rows) (suc n, m) = Stands rows (n, m)

  pub pending_rows-Stands :
      (locked : ℕ → Bool) (rows : List (OutboxRow P)) → All (Stands rows) (pending_rows locked rows)
  unfolding pending_rows
  pending_rows-Stands locked [] = tt
  pending_rows-Stands locked (r ∷ rows) =
      let rest : All (Stands (r ∷ rows))
          (map one_further (pending_rows (λ n. locked (suc n)) rows)) =
        All_further r rows (pending_rows (λ n. locked (suc n)) rows)
          (pending_rows-Stands (λ n. locked (suc n)) rows) in
      elim (Bool-cases (not r.published && not (locked 0))) [
        | inl e ↦ rw e (refl, rest)
        | inr e ↦ rw e rest
      ]
    where
      All_further :
          (r : OutboxRow P) (rows : List (OutboxRow P)) (xs : List (Selected P))
          → All (Stands rows) xs
          → All (Stands (r ∷ rows)) (map one_further xs)
      All_further r rows [] h = tt
      All_further r rows ((n, m) ∷ xs) h = (h.0, All_further r rows xs h.1)

  pub All-take :
      (Q : Selected P → Type 0) (n : ℕ) (xs : List (Selected P)) → All Q xs → All Q (take n xs)
  All-take Q zero xs h = tt
  All-take Q (suc n) [] h = tt
  All-take Q (suc n) (x ∷ xs) h = (h.0, All-take Q n xs h.1)

module _ {P D V : Type 0} (set : Setting P D V) where
  -- The message that the brokers have was made of the row, under some identifier and time.
  pub record Carries (m : Message P) (k : KafkaMessage V) : Type 0 where
    pub data_of : D
    pub given_id : ℕ
    pub given_time : ℕ
    pub bytes : V
    pub reads : set.unmarshal_data m.payload ≡ some data_of
    pub writes : set.marshal (completed given_id given_time (event_of m data_of)) ≡ some bytes
    pub same : k ≡ message_of m.topic (completed given_id given_time (event_of m data_of)) bytes

  abbrev pub Sent : List (KafkaMessage V) → Message P → Type 0
  Sent calls m =
      (before : List (KafkaMessage V)) × (k : KafkaMessage V) × (after : List (KafkaMessage V))
      × (calls ≡ before ++ k ∷ after)
      × Carries m k

  -- A row keeps its message, and is published only if it was or its message was sent.
  abbrev pub IsBacked : List (KafkaMessage V) → OutboxRow P → OutboxRow P → Type 0
  IsBacked calls old new =
      (new.message ≡ old.message) × ((new.published ≡ old.published) ⊎ Sent calls old.message)

  -- The rows after, one for each row before, in their order.
  pub data AreBacked (calls : List (KafkaMessage V))
      : List (OutboxRow P) → List (OutboxRow P) → Type 0 where
    no_rows : AreBacked calls [] []
    row :
        (old new : OutboxRow P) (olds news : List (OutboxRow P))
        → IsBacked calls old new
        → AreBacked calls olds news
        → AreBacked calls (old ∷ olds) (new ∷ news)

  pub AreBacked-refl :
      (calls : List (KafkaMessage V)) (rows : List (OutboxRow P)) → AreBacked calls rows rows
  AreBacked-refl calls [] = AreBacked.no_rows
  AreBacked-refl calls (r ∷ rows) =
      AreBacked.row r r rows rows (refl, inl refl) (AreBacked-refl calls rows)

  IsBacked-more :
      (calls more : List (KafkaMessage V)) (old new : OutboxRow P)
      → IsBacked calls old new
      → IsBacked (calls ++ more) old new
  IsBacked-more calls more old new (e, inl h) = (e, inl h)
  IsBacked-more calls more old new (e, inr (before, k, after, h, c)) =
      (e, inr (before, k, after ++ more, rw h (append_assoc before (k ∷ after) more), c))

  pub AreBacked-more :
      (calls more : List (KafkaMessage V)) (olds news : List (OutboxRow P))
      → AreBacked calls olds news
      → AreBacked (calls ++ more) olds news
  AreBacked-more calls more _ _ AreBacked.no_rows = AreBacked.no_rows
  AreBacked-more calls more _ _ (AreBacked.row old new olds news h t) =
      AreBacked.row old new olds news (IsBacked-more calls more old new h)
        (AreBacked-more calls more olds news t)

  pub update_at-AreBacked :
      (calls : List (KafkaMessage V)) (f : OutboxRow P → OutboxRow P) (n : ℕ) (m : Message P)
      (olds news : List (OutboxRow P))
      → Stands olds (n, m)
      → ((old new : OutboxRow P)
          → old.message ≡ m
          → IsBacked calls old new
          → IsBacked calls old (f new))
      → AreBacked calls olds news
      → AreBacked calls olds (update_at n f news)
  update_at-AreBacked calls f n m _ _ s h AreBacked.no_rows = AreBacked.no_rows
  update_at-AreBacked calls f zero m _ _ s h (AreBacked.row old new olds news b t) =
      AreBacked.row old (f new) olds news (h old new s b) t
  update_at-AreBacked calls f (suc n) m _ _ s h (AreBacked.row old new olds news b t) =
      AreBacked.row old new olds (update_at n f news) b
        (update_at-AreBacked calls f n m olds news s h t)
