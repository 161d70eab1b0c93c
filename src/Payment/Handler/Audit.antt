-- ===== src/Payment/Handler/Audit.antt =====
-- What `Events` shows of a payment.
use eventflow_commerce.Common.{ℕ, ◌≡◌, refl, some, List, ◌∷◌, map, arith}
use eventflow_commerce.Database.{World, answers, select, tick}
use eventflow_commerce.Payment.Aggregate.{Event}
use eventflow_commerce.Payment.Codec.{UuidText, event_type, marshal_event}
use eventflow_commerce.Payment.Store.Tables.{Tables}
use eventflow_commerce.Payment.Store.Streams.{HasHistory, events_after_lem}
use eventflow_commerce.Payment.Service.{Charge}
use eventflow_commerce.Payment.Handler.{events_listed, list_events}

-- Events shows every recorded event of a payment in the order of the history, each under its type in
-- the form in which it is stored, and changes no row, if the table holds that history and the server
-- answers.
pub list_events_lem :
    (u : UuidText) (id : ℕ) (e : Event) (rest : List Event) (w : World Tables Charge)
    → HasHistory u id (e ∷ rest) w.committed
    → w.replies w.clock ≡ answers
    → list_events u (some id) w
      ≡ (events_listed (map (λ x. (event_type x, marshal_event u x)) (e ∷ rest)), tick w)
unfolding list_events select
list_events_lem u id e rest w h answered =
    rw (select, answered, events_after_lem u id 0 (e ∷ rest) w.committed h (omega arith)) refl
