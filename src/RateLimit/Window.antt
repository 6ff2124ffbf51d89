-- ===== src/RateLimit/Window.antt =====
-- The sliding window of the limiter.
use mathlib.Core.Path.{ap}
use problem_bulletin.Prelude.{
  ℕ, ◌∙◌, ◌≡◌, ◌≤◌, inl, inr, Bool, true, false, ◌&&◌, refl, List, [], ◌∷◌, ◌++◌, filter, length,
  count, ltb, leb, arith, if◌then◌else◌, Bool-cases,
}
use problem_bulletin.Prelude.Text.{Text, text_eq, text_eq_iff}
use problem_bulletin.RateLimit.{
  Limiter, is_live, attempts_of, set_attempts, Answer, admitted, check, refusal,
}

-- The attempts of an email that still count.
abbrev pub live : Text → ℕ → Limiter → List ℕ
live email now l = filter (is_live l now) (attempts_of email l.attempts)

attempts_of-set_attempts :
    (email other : Text) (new : List ℕ) (rows : List (Text × List ℕ))
    → attempts_of email (set_attempts other new rows)
      ≡ (if text_eq other email then new else attempts_of email rows)
unfolding attempts_of set_attempts
attempts_of-set_attempts email other new [] = ground arith
attempts_of-set_attempts email other new ((key, times) ∷ rest) = ground (
  arith,
  attempts_of-set_attempts email other new rest,
  text_eq_iff key other,
  text_eq_iff key email,
  text_eq_iff other email,
)

pub check-attempts :
    (email other : Text) (now : ℕ) (l : Limiter)
    → attempts_of email (check other now l).1.attempts ≡ (
        if text_eq other email
        then (if leb l.max_requests (length (live other now l))
            then live other now l
            else live other now l ++ (now ∷ []))
        else attempts_of email l.attempts)
unfolding check
check-attempts email other now l = ground (
  arith,
  attempts_of-set_attempts email other (live other now l) l.attempts,
  attempts_of-set_attempts email other (live other now l ++ (now ∷ [])) l.attempts,
)

pub check-settings :
    (email : Text) (now : ℕ) (l : Limiter)
    → ((check email now l).1.max_requests ≡ l.max_requests)
      × ((check email now l).1.window_seconds ≡ l.window_seconds)
unfolding check
check-settings email now l = ground arith

pub filter_later :
    (l : Limiter) (now later : ℕ) (times : List ℕ)
    → now ≤ later
    → filter (is_live l later) (filter (is_live l now) times) ≡ filter (is_live l later) times
filter_later l now later [] h = refl
filter_later l now later (t ∷ times) h = ground (arith, filter_later l now later times h)

filter-append :
    (keep : ℕ → Bool) (xs ys : List ℕ) → filter keep (xs ++ ys) ≡ filter keep xs ++ filter keep ys
filter-append keep [] ys = refl
filter-append keep (x ∷ xs) ys = ground (arith, filter-append keep xs ys)

pub length-filter-le : (keep : ℕ → Bool) (xs : List ℕ) → length (filter keep xs) ≤ length xs
length-filter-le keep [] = omega arith
length-filter-le keep (x ∷ xs) = ground (arith, length-filter-le keep xs)

-- The attempts that were let through, newest first.
abbrev pub note : Answer → Text → ℕ → List (Text × ℕ) → List (Text × ℕ)
note admitted email now log = (email, now) ∷ log
note _ email now log = log

-- How many attempts of an email were let through in the window that ends now.
abbrev pub recent : Limiter → Text → ℕ → List (Text × ℕ) → ℕ
recent l email now log = count (λ (row : Text × ℕ). text_eq row.0 email && is_live l now row.1) log

-- The checks that were made from a start on: the attempts that were let through, of all emails, and their times; the clock does not go back.
pub data Runs (max window : ℕ) : Limiter → List (Text × ℕ) → ℕ → Type 0 where
  fresh :
      Runs max window (record { max_requests = max; window_seconds = window; attempts = [] }) [] 0
  checking :
      {l : Limiter} {log : List (Text × ℕ)} {last : ℕ}
      → Runs max window l log last
      → (email : Text) (now : ℕ) → last ≤ now
      → Runs max window (check email now l).1 (note (check email now l).0 email now log) now

same_window :
    (l m : Limiter) (now : ℕ) (times : List ℕ)
    → m.window_seconds ≡ l.window_seconds
    → filter (is_live m now) times ≡ filter (is_live l now) times
same_window l m now times e = rw e refl

pub live_other :
    (email other : Text) (now later : ℕ) (l : Limiter)
    → text_eq other email ≡ false
    → live email later (check other now l).1 ≡ live email later l
live_other email other now later l e =
    let kept : attempts_of email (check other now l).1.attempts ≡ attempts_of email l.attempts =
      ground (arith, check-attempts email other now l, e) in
    same_window l (check other now l).1 later _ (check-settings other now l).1
    ∙ ap (filter (is_live l later)) kept

pub live_own :
    (email : Text) (now later : ℕ) (l : Limiter)
    → now ≤ later
    → live email later (check email now l).1 ≡ (
        if ltb (length (live email now l)) l.max_requests
        then live email later l ++ filter (is_live l later) (now ∷ [])
        else live email later l)
live_own email now later l h =
    let own : text_eq email email ≡ true = (text_eq_iff email email).1 refl in
    elim (Bool-cases (leb l.max_requests (length (live email now l)))) [
      | inl full ↦
          let kept : attempts_of email (check email now l).1.attempts ≡ live email now l =
            ground (arith, check-attempts email email now l, own, full) in
          let no : ltb (length (live email now l)) l.max_requests ≡ false = ground (arith, full) in
          same_window l (check email now l).1 later _ (check-settings email now l).1
          ∙ rw (kept, no) (filter_later l now later (attempts_of email l.attempts) h)
      | inr room ↦
          let kept : attempts_of email (check email now l).1.attempts
              ≡ live email now l ++ (now ∷ []) =
            ground (arith, check-attempts email email now l, own, room) in
          let yes : ltb (length (live email now l)) l.max_requests ≡ true = ground (arith, room) in
          same_window l (check email now l).1 later _ (check-settings email now l).1
          ∙ rw (kept, yes)
              (filter-append (is_live l later) (live email now l) (now ∷ [])
                ∙ ap (λ xs. xs ++ filter (is_live l later) (now ∷ []))
                    (filter_later l now later (attempts_of email l.attempts) h))
    ]

pub check-answer :
    (email : Text) (now : ℕ) (l : Limiter) (log : List (Text × ℕ))
    → note (check email now l).0 email now log
      ≡ (if ltb (length (live email now l)) l.max_requests then (email, now) ∷ log else log)
unfolding check
check-answer email now l log = elim (Bool-cases (leb l.max_requests (length (live email now l)))) [
  | inl full ↦ rw full (full_note (live email now l) full)
  | inr room ↦ ground (arith, room)
]
  where
    full_note :
        (times : List ℕ)
        → leb l.max_requests (length times) ≡ true
        → note (refusal l now times) email now log
          ≡ (if ltb (length times) l.max_requests then (email, now) ∷ log else log)
    full_note [] full = ground arith
    full_note (t ∷ times) full = ground arith
