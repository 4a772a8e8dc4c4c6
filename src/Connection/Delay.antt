-- ===== src/Connection/Delay.antt =====
-- The options of the connection controller, and its backoff. Times are whole milliseconds.
use native.Mathlib.Nat.{mul-le-mul_left}
use xbin.Common.{ℕ, ◌+◌, ◌*◌, ◌/◌, ◌^◌, ◌≤◌, ◌<◌, ◌≡◌, min, Bool, arith}

-- LiveConnectionOptions: the numbers, and whether a probe is given.
pub record Options : Type 0 where
  pub has_probe : Bool
  pub retry_base_ms : ℕ
  pub retry_max_ms : ℕ
  pub max_reconnect_attempts : ℕ

-- `Math.random()` is a draw out of these many.
abbrev pub draws : ℕ
draws = 2 ^ 53

-- Twice `Math.min(retryMaxMs, retryBaseMs * 2 ** Math.min(attempt - 1, 6))`: doubled, since the exponent
-- is -1 where no attempt is counted.
twice_exponential : Options → ℕ → ℕ
twice_exponential o attempt = min (2 * o.retry_max_ms) (o.retry_base_ms * 2 ^ min attempt 7)

-- `Math.round(exponential * (0.8 + random * 0.4))`, in exact arithmetic.
unfoldable pub backoff_delay : Options → ℕ → ℕ → ℕ
unfolding twice_exponential
backoff_delay o draw attempt =
    (twice_exponential o attempt * (4 * draws + 2 * draw) + 5 * draws) / (10 * draws)

abbrev doubled : Options → ℕ → ℕ
doubled o attempt = min (2 * o.retry_max_ms) (o.retry_base_ms * 2 ^ min attempt 7)

scaled :
    (t draw max : ℕ)
    → draw < draws
    → t ≤ 2 * max
    → (let q = (t * (4 * draws + 2 * draw) + 5 * draws) / (10 * draws) in
        (4 * t ≤ 10 * q + 5) × (10 * q ≤ 6 * t + 5) × (10 * q ≤ 12 * max + 5))
scaled t draw max h h' =
    let few : t * draw ≤ t * draws = mul-le-mul_left t (omega arith) in
    let split : t * (4 * draws + 2 * draw) ≡ 4 * draws * t + 2 * (t * draw) = omega arith in
    let all = t * (4 * draws + 2 * draw) in (omega arith, omega arith, omega arith)

-- With a random number below 1, the delay before a reconnection is within a fifth of the exponential
-- backoff (and half a millisecond of rounding), and so at most a fifth above the maximum.
pub backoff_delay-bounds :
    (o : Options) (draw attempt : ℕ)
    → draw < draws
    → (4 * doubled o attempt ≤ 10 * backoff_delay o draw attempt + 5)
      × (10 * backoff_delay o draw attempt ≤ 6 * doubled o attempt + 5)
      × (10 * backoff_delay o draw attempt ≤ 12 * o.retry_max_ms + 5)
unfolding backoff_delay twice_exponential
backoff_delay-bounds o draw attempt h =
    scaled (doubled o attempt) draw o.retry_max_ms h (omega arith)
