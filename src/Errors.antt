-- ===== src/Errors.antt =====
-- shared/libs/go/errors/errors.go: the application errors, by constructor, with the arguments
-- that the code formats into `Message` and `Details`; and the errors of database/sql and of remote
-- calls, which the code passes on wrapped by `fmt.Errorf`.
use eventflow_commerce.Common.{ℕ, String, Bool, true, false, ◌≡◌, ◌⊎◌, inl, inr, refl}
use eventflow_commerce.Common.Int.{ℤ}

-- Where a call of database/sql came back with an error.
pub data Stage : Type 0 where
  begin_transaction statement commit_transaction : Stage

pub data Error : Type 0 where
  validation : String → Error
  conflict : Error
  not_found : String → Error
  order_not_found : ℕ → Error
  order_already_processed : ℕ → Error
  product_not_found : ℕ → Error
  insufficient_inventory : ℕ → ℤ → ℤ → Error
  payment_failed : String → Error
  unknown_event_type : Error
  malformed : Error
  driver : Stage → Error
  remote : Error
  bad_request : String → Error
  unauthorized : String → Error
  forbidden : Error
  internal : Error
  reported : String → ℕ → Error
  breaker_open : Error
  context_done : Error

-- What a call with the Go result `(A, error)` returns.
pub data Result {ℓ} (A : Type ℓ) : Type ℓ where
  ok : A → Result A
  err : Error → Result A

-- `AppError.Code`; the empty text for an error that is no `*AppError`.
unfoldable pub code : Error → String
code (validation _) = "VALIDATION_ERROR"
code conflict = "CONFLICT"
code (not_found _) = "NOT_FOUND"
code (order_not_found _) = "ORDER_NOT_FOUND"
code (order_already_processed _) = "ORDER_ALREADY_PROCESSED"
code (product_not_found _) = "PRODUCT_NOT_FOUND"
code (insufficient_inventory _ _ _) = "INSUFFICIENT_INVENTORY"
code (payment_failed _) = "PAYMENT_FAILED"
code (bad_request _) = "BAD_REQUEST"
code (unauthorized _) = "UNAUTHORIZED"
code forbidden = "FORBIDDEN"
code internal = "INTERNAL_SERVER_ERROR"
code (reported text status) = text
code _ = ""

-- `AppError.HTTPCode`, and 500 for an error that is no `*AppError`.
unfoldable pub http_code : Error → ℕ
http_code (validation _) = 400
http_code conflict = 409
http_code (not_found _) = 404
http_code (order_not_found _) = 404
http_code (order_already_processed _) = 409
http_code (product_not_found _) = 404
http_code (insufficient_inventory _ _ _) = 409
http_code (payment_failed _) = 402
http_code (bad_request _) = 400
http_code (unauthorized _) = 401
http_code forbidden = 403
http_code (reported text status) = status
http_code _ = 500

pub Result-cases {ℓ} :
    {A : Type ℓ} (r : Result A) → ((a : A) × (r ≡ ok a)) ⊎ ((e : Error) × (r ≡ err e))
Result-cases (ok a) = inl (a, refl)
Result-cases (err e) = inr (e, refl)

-- The error is an `*AppError`, as `errors.As` finds out.
unfoldable pub is_app_error : Error → Bool
is_app_error unknown_event_type = false
is_app_error malformed = false
is_app_error (driver _) = false
is_app_error remote = false
is_app_error breaker_open = false
is_app_error context_done = false
is_app_error _ = true
