-- ===== src/RateLimit/Bound.antt =====
-- The limit over every window.
use mathlib.Core.Path.{ap, subst}
use problem_bulletin.Prelude.{
  ℕ, suc, ◌+◌, ◌-◌, ◌*◌, ◌/◌, ◌≤◌, ◌≡◌, ◌∙◌, refl, sym, inl, inr, true, false, List, [], ◌∷◌,
  filter, length, length-append, ltb, leb, arith, if◌then◌else◌, Bool-cases,
}
use problem_bulletin.Prelude.Text.{Text, text_eq, text_eq_iff}
use problem_bulletin.RateLimit.{
  Limiter, is_live, attempts_of, check, too_many, admitted, retry_after, refusal, second,
}
use problem_bulletin.RateLimit.Window.{
  filter_later, live, check-attempts, check-settings, length-filter-le, Runs, fresh, checking, note,
  recent, live_other, live_own, check-answer,
}

-- The rows that the limiter holds count what it let through lately.
record Tracks (l : Limiter) (log : List (Text × ℕ)) (last : ℕ) : Type 0 where
  counted :
      (email : Text) (now : ℕ) → last ≤ now → length (live email now l) ≡ recent l email now log
  bounded : (email : Text) → length (attempts_of email l.attempts) ≤ l.max_requests

same_recent :
    (l m : Limiter) (email : Text) (now : ℕ) (log : List (Text × ℕ))
    → m.window_seconds ≡ l.window_seconds
    → recent m email now log ≡ recent l email now log
same_recent l m email now [] e = refl
same_recent l m email now ((x, t) ∷ log) e = ground (arith, e, same_recent l m email now log e)

module _ (l : Limiter) (log : List (Text × ℕ)) (last : ℕ) (h : Tracks l log last) (other : Text)
    (now : ℕ) (after : last ≤ now) where
  abbrev noted : List (Text × ℕ)
  noted = note (check other now l).0 other now log

  counted_other :
      (email : Text) (later : ℕ)
      → now ≤ later
      → text_eq other email ≡ false
      → recent l email later noted ≡ length (live email later l)
  counted_other email later le apart =
      rw (check-answer other now l log)
        (ground (arith, apart, h.counted email later (omega (arith, after, le))))

  counted_own :
      (later : ℕ)
      → now ≤ later
      → recent l other later noted ≡ length (live other later (check other now l).1)
  counted_own later le =
      let own : text_eq other other ≡ true = (text_eq_iff other other).1 refl in
      rw (check-answer other now l log, live_own other now later l le)
        (ground (
          arith,
          own,
          h.counted other later (omega (arith, after, le)),
          length-append (live other later l) (filter (is_live l later) (now ∷ [])),
        ))

  bounded_check :
      (email : Text) → length (attempts_of email (check other now l).1.attempts) ≤ l.max_requests
  bounded_check email = rw (check-attempts email other now l) (
      ground (
        arith,
        h.bounded email,
        h.bounded other,
        length-append (live other now l) (now ∷ []),
        length-filter-le (is_live l now) (attempts_of other l.attempts),
      ))

  check-Tracks : Tracks (check other now l).1 noted now
  check-Tracks = record {
    counted = λ email later le. elim (Bool-cases (text_eq other email)) [
      | inl same ↦
          let eq : other ≡ email = (text_eq_iff other email).0 same in
          subst
            (λ e.
              length (live e later (check other now l).1)
              ≡ recent (check other now l).1 e later noted)
            eq
            (sym (
              same_recent l (check other now l).1 other later noted (check-settings other now l).1
              ∙ counted_own later le))
      | inr apart ↦
          ap length (live_other email other now later l apart)
          ∙ sym (
              same_recent l (check other now l).1 email later noted (check-settings other now l).1
              ∙ counted_other email later le apart)
    ];
    bounded = λ email. rw ((check-settings other now l).0) (bounded_check email);
  }

Runs-Tracks :
    {max window : ℕ} {l : Limiter} {log : List (Text × ℕ)} {last : ℕ}
    → Runs max window l log last
    → (l.max_requests ≡ max) × Tracks l log last
unfolding attempts_of
Runs-Tracks fresh =
    (refl, record { counted = λ email now le. refl; bounded = λ email. omega arith })
Runs-Tracks (checking {l = m} {log = before} {last = prior} r other now le) =
    let (same, h) = Runs-Tracks r in
    ((check-settings other now m).0 ∙ same, check-Tracks m before prior h other now le)

-- Whatever emails `check` is called with, at times that do not go back, it never lets more than
-- `max_requests` attempts of one email through in a window of `window_seconds`, wherever the window
-- ends from the last call on.
pub Runs-recent-le :
    {max window : ℕ} {l : Limiter} {log : List (Text × ℕ)} {last : ℕ}
    → Runs max window l log last
    → (email : Text) (now : ℕ) → last ≤ now
    → recent l email now log ≤ max
Runs-recent-le {l = m} r email now le =
    let (same, h) = Runs-Tracks r in
    omega (
      arith,
      h.counted email now le,
      h.bounded email,
      same,
      length-filter-le (is_live m now) (attempts_of email m.attempts),
    )

retry_late :
    (now oldest window : ℕ)
    → oldest + window * 1000000 ≤ now + ((oldest + window * 1000000 - now) / 1000000 + 1) * 1000000
retry_late now oldest window = omega arith

check-full :
    (email : Text) (now : ℕ) (l : Limiter)
    → (check email now l).0 ≡ (
        if leb l.max_requests (length (live email now l))
        then refusal l now (live email now l)
        else admitted)
unfolding check
check-full email now l = ground arith

refusal_first :
    (l : Limiter) (now r : ℕ) (times : List ℕ)
    → (if leb l.max_requests (length times) then refusal l now times else admitted) ≡ too_many r
    → (oldest : ℕ) × (rest : List ℕ) × (times ≡ oldest ∷ rest)
      × (r ≡ retry_after l now oldest)
      × (l.max_requests ≤ suc (length rest))
refusal_first l now r [] e = ground arith
refusal_first l now r (oldest ∷ rest) e = (oldest, rest, refl, ground arith, ground arith)

later_live :
    (l : Limiter) (now later oldest : ℕ) (times rest : List ℕ)
    → now ≤ later
    → filter (is_live l now) times ≡ oldest ∷ rest
    → is_live l later oldest ≡ false
    → length (filter (is_live l later) times) ≤ length rest
later_live l now later oldest times rest le e dead =
    let eq : filter (is_live l later) times ≡ filter (is_live l later) rest =
      sym (filter_later l now later times le) ∙ ap (filter (is_live l later)) e ∙ rw dead refl in
    omega (arith, ap length eq, length-filter-le (is_live l later) rest)

-- After a refusal an email is let through again, if it asks no sooner than `Retry-After` seconds
-- later and `check` has not been called in between.
pub retry_enough :
    {max window : ℕ} {l : Limiter} {log : List (Text × ℕ)} {last : ℕ}
    → Runs max window l log last
    → (email : Text) (now later r : ℕ) → (check email now l).0 ≡ too_many r
    → now + r * second ≤ later
    → (check email later (check email now l).1).0 ≡ admitted
retry_enough {l = m} run email now later r refused wait_over =
    let (same, h) = Runs-Tracks run in
    let times = attempts_of email m.attempts in
    let (oldest, rest, first, wait, full) =
      refusal_first m now r (live email now m) (sym (check-full email now m) ∙ refused) in
    let dead : is_live m later oldest ≡ false =
      ground (arith, retry_late now oldest m.window_seconds, wait) in
    let few : length (live email later m) ≤ length rest =
      later_live m now later oldest times rest (omega arith) first dead in
    let n = length (live email now m) in
    let held : n ≤ m.max_requests =
      omega (arith, length-filter-le (is_live m now) times, h.bounded email) in
    let short : suc (length rest) ≤ m.max_requests = omega (arith, held, ap length first) in
    let full_now : ltb n m.max_requests ≡ false = ground (arith, full, ap length first) in
    let l' = (check email now m).1 in
    let kept : live email later l' ≡ live email later m =
      live_own email now later m (omega arith) ∙ rw full_now refl in
    check-full email later l' ∙ ground (arith, kept, short, few, (check-settings email now m).0)
