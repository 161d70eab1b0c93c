-- ===== src/Resilience/Backoff.antt =====
-- The bounds of the delay between two attempts.
use eventflow_commerce.Common.{ℕ, ◌≡◌, ◌+◌, ◌-◌, ◌^◌, Bool-cases, inl, inr, arith}
use eventflow_commerce.Common.Int.{
  ℤ, pos, ◌+ℤ◌, ◌≤ℤ◌, ◌<ℤ◌, wrap64, wrap64_id, negsuc, leb_ℤ, int_laws,
}
use eventflow_commerce.Resilience.{RetryConfig, raw_delay, capped_delay, backoff_delay}

-- The contract of `rand.Int63n`: below its argument, for a positive argument.
abbrev pub IsInt63n : (ℤ → ℤ) → Type 0
IsInt63n draw = (n : ℤ) → pos 0 <ℤ n → (pos 0 ≤ℤ draw n) × (draw n <ℤ n)

capped_delay_lem :
    (cfg : RetryConfig) (attempt : ℕ)
    → pos 0 <ℤ cfg.max_delay
    → (capped_delay cfg attempt ≤ℤ cfg.max_delay)
      × (capped_delay cfg attempt ≤ℤ raw_delay cfg attempt)
unfolding capped_delay
capped_delay_lem cfg attempt h = ground arith

succ_lem : (n : ℕ) → pos n +ℤ pos 1 ≡ pos (n + 1)
succ_lem n = omega int_laws

drawn_lem :
    (draw : ℤ → ℤ) (c : ℤ)
    → IsInt63n draw
    → pos 0 <ℤ c
    → c <ℤ pos (2 ^ 63 - 1)
    → (pos 0 ≤ℤ draw (wrap64 (c +ℤ pos 1))) × (draw (wrap64 (c +ℤ pos 1)) ≤ℤ c)
drawn_lem draw (negsuc n) h low high = absurd (omega arith)
drawn_lem draw (pos n) h low high =
    let e : wrap64 (pos (n + 1)) ≡ pos (n + 1) =
      wrap64_id (pos (n + 1)) (omega arith, omega arith) in
    let d : (pos 0 ≤ℤ draw (pos (n + 1))) × (draw (pos (n + 1)) <ℤ pos (n + 1)) =
      h (pos (n + 1)) (omega arith) in
    rw (succ_lem n, e) (d.0, omega (arith, d.1))

-- The delay before another attempt is not negative and at most the configured maximum, if there is
-- a maximum below 2 ^ 63 - 1, `rand.Int63n` keeps its contract, and whatever the base delay is.
pub backoff_delay-IsCapped :
    (draw : ℤ → ℤ) (cfg : RetryConfig) (attempt : ℕ)
    → IsInt63n draw
    → pos 0 <ℤ cfg.max_delay
    → cfg.max_delay <ℤ pos (2 ^ 63 - 1)
    → (pos 0 ≤ℤ backoff_delay draw cfg attempt) × (backoff_delay draw cfg attempt ≤ℤ cfg.max_delay)
unfolding backoff_delay
backoff_delay-IsCapped draw cfg attempt h low high =
    let c : ℤ = capped_delay cfg attempt in
    let b : (c ≤ℤ cfg.max_delay) × (c ≤ℤ raw_delay cfg attempt) =
      capped_delay_lem cfg attempt low in
    elim (Bool-cases (leb_ℤ c (pos 0))) [
      | inl e ↦ rw e (omega int_laws, omega int_laws)
      | inr e ↦
          let d : (pos 0 ≤ℤ draw (wrap64 (c +ℤ pos 1))) × (draw (wrap64 (c +ℤ pos 1)) ≤ℤ c) =
            drawn_lem draw c h (ground arith) (omega arith) in
          rw e (d.0, omega int_laws)
    ]
