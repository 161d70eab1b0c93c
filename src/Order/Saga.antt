-- ===== src/Order/Saga.antt =====
-- services/order/internal/saga/state.go: the states of the saga of an order, and its graph.
use eventflow_commerce.Common.{
  ℕ, ◌≡◌, ◌⊎◌, inl, inr, refl, Bool, true, ◌||◌, List, [], ◌∷◌, ◌==◌, any_row, arith,
}

pub data State : Type 0 where
  started stock_reserved awaiting_payment paid completed compensating compensated failed : State

-- The moves out of a state; a state that `graph` lacks has none.
unfoldable pub graph : State → List State
graph started = stock_reserved ∷ failed ∷ []
graph stock_reserved = awaiting_payment ∷ compensating ∷ []
graph awaiting_payment = paid ∷ compensating ∷ []
graph paid = completed ∷ compensating ∷ []
graph compensating = compensated ∷ []
graph _ = []

abbrev number : State → ℕ
number started = 0
number stock_reserved = 1
number awaiting_payment = 2
number paid = 3
number completed = 4
number compensating = 5
number compensated = 6
number failed = 7

abbrev pub same_state : State → State → Bool
same_state a b = number a == number b

-- `CanTransition`
unfoldable pub can_transition : State → State → Bool
unfolding graph
can_transition from to =
    same_state from to || any_row (λ allowed. same_state allowed to) (graph from)

-- The states that transitions lead to, one after another.
pub data Reaches : State → State → Type 0 where
  here : {s : State} → Reaches s s
  then_to : {s m t : State} → Reaches s m → can_transition m t ≡ true → Reaches s t

abbrev IsUndoing : State → Type 0
IsUndoing s = (s ≡ compensating) ⊎ (s ≡ compensated)

step-IsUndoing : (m t : State) → can_transition m t ≡ true → IsUndoing m → IsUndoing t
unfolding can_transition
step-IsUndoing compensating compensating h _ = inl refl
step-IsUndoing compensating compensated h _ = inr refl
step-IsUndoing compensated compensated h _ = inr refl
step-IsUndoing m t h u = ground arith

-- A saga that compensates goes on to no state but compensated: it is never paid or completed
-- any more.
pub compensating_stays :
    (s t : State)
    → Reaches s t
    → (s ≡ compensating) ⊎ (s ≡ compensated)
    → (t ≡ compensating) ⊎ (t ≡ compensated)
compensating_stays s t here h = h
compensating_stays s t (then_to {m} r step) h = step-IsUndoing m t step (compensating_stays s m r h)

pub same_state_eq : (a b : State) → same_state a b ≡ true → a ≡ b
same_state_eq started started h = refl
same_state_eq stock_reserved stock_reserved h = refl
same_state_eq awaiting_payment awaiting_payment h = refl
same_state_eq paid paid h = refl
same_state_eq completed completed h = refl
same_state_eq compensating compensating h = refl
same_state_eq compensated compensated h = refl
same_state_eq failed failed h = refl
same_state_eq a b h = absurd (cc h)
