-- ===== src/RateLimit.antt =====
-- app/middleware/rate_limit.py: `MagicLinkRateLimiter`. A time is in microseconds since the epoch,
-- where the code has a float of seconds.
pub mod Window
pub mod Bound
use problem_bulletin.Prelude.{
  ℕ, ◌+◌, ◌-◌, ◌*◌, ◌/◌, Bool, true, false, not, ◌&&◌, Option, none, some, List, [], ◌∷◌, ◌++◌,
  filter, length, ltb, leb, if◌then◌else◌, any,
}
use problem_bulletin.Prelude.Text.{Text, text_eq}

abbrev pub second : ℕ
second = 1000000

pub record Limiter : Type 0 where
  pub max_requests : ℕ
  pub window_seconds : ℕ
  pub attempts : List (Text × List ℕ)

-- `t > now - window`, with no cut-off at 0
abbrev pub is_live : Limiter → ℕ → ℕ → Bool
is_live l now t = ltb now (t + l.window_seconds * second)

-- `_attempts[email]` of the `defaultdict`
unfoldable pub attempts_of : Text → List (Text × List ℕ) → List ℕ
attempts_of email [] = []
attempts_of email ((key, times) ∷ rest) =
    let others = attempts_of email rest in if text_eq key email then times else others

unfoldable pub set_attempts : Text → List ℕ → List (Text × List ℕ) → List (Text × List ℕ)
set_attempts email new [] = (email, new) ∷ []
set_attempts email new ((key, times) ∷ rest) =
    let others = set_attempts email new rest in
    if text_eq key email then (key, new) ∷ rest else (key, times) ∷ others

-- `int(oldest + window - now) + 1`, for a live oldest attempt
abbrev pub retry_after : Limiter → ℕ → ℕ → ℕ
retry_after l now oldest = (oldest + l.window_seconds * second - now) / second + 1

-- The answer of `check`: nothing, a 429 with its `Retry-After`, or the `IndexError` of the first of
-- no attempts, if the limit is 0.
pub data Answer : Type 0 where
  admitted : Answer
  too_many : ℕ → Answer
  index_error : Answer

abbrev pub refusal : Limiter → ℕ → List ℕ → Answer
refusal l now [] = index_error
refusal l now (oldest ∷ times) = too_many (retry_after l now oldest)

unfoldable pub check : Text → ℕ → Limiter → Answer × Limiter
check email now l =
    let live = filter (is_live l now) (attempts_of email l.attempts) in
    if leb l.max_requests (length live)
    then (refusal l now live, record l { attempts = set_attempts email live l.attempts })
    else (admitted, record l { attempts = set_attempts email (live ++ (now ∷ [])) l.attempts })

-- `del` of the keys that have expired attempts only
unfoldable pub cleanup : ℕ → Limiter → Limiter
cleanup now l = record l {
  attempts = filter (λ (row : Text × List ℕ). any (is_live l now) row.1) l.attempts;
}
