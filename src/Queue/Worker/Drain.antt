-- ===== src/Queue/Worker/Drain.antt =====
-- The worker takes the oldest pending run, and as many calls as there are pending runs empty the
-- queue.
use mathlib.Core.Path.{subst}
use problem_bulletin.Prelude.{
  ℕ, ◌⊎◌, ◌+◌, ◌≤◌, ◌≡◌, refl, sym, ◌==◌, ◌&&◌, Bool, true, false, not, none, some, inl, inr, List,
  [], ◌∷◌, count, any, arith, if◌then◌else◌, Bool-cases, Option-cases,
}
use problem_bulletin.Prelude.Table.{lookup, put}
use problem_bulletin.Domain.{Context}
use problem_bulletin.Domain.Runs.{AgentRun, run_key}
use problem_bulletin.Queue.Worker.{
  Ran, raised, gave, is_pending, before, oldest, failed, succeeded, error_of,
}

-- The row that a processed run ends as.
abbrev pub finished : Context → AgentRun → Ran → AgentRun
finished ctx r (raised why) = failed ctx why r
finished ctx r (gave result) =
    if result.is_ok then succeeded ctx result r else failed ctx (error_of result) r

-- One row for an id.
abbrev pub Keyed : List AgentRun → Type 0
Keyed runs = (k : ℕ) → count (λ (r : AgentRun). r.id == k) runs ≤ 1

lookup-count :
    (k : ℕ) (r : AgentRun) (runs : List AgentRun)
    → lookup run_key k runs ≡ some r
    → 1 ≤ count (λ (s : AgentRun). s.id == k) runs
unfolding lookup
lookup-count k r [] e = ground arith
lookup-count k r (s ∷ runs) e = ground (arith, lookup-count k r runs)

put_absent :
    (s : AgentRun) (runs : List AgentRun)
    → count (λ (r : AgentRun). r.id == s.id) runs ≡ 0
    → put run_key s runs ≡ runs
unfolding put
put_absent s [] e = refl
put_absent s (r ∷ runs) e = ground (arith, put_absent s runs)

pub pending-put :
    (s t : AgentRun) (runs : List AgentRun)
    → count (λ (r : AgentRun). r.id == s.id) runs ≤ 1
    → lookup run_key s.id runs ≡ some t
    → count is_pending (put run_key s runs) + (if is_pending t then 1 else 0)
      ≡ count is_pending runs + (if is_pending s then 1 else 0)
unfolding put lookup
pending-put s t [] one found = ground arith
pending-put s t (r ∷ runs) one found = elim (Bool-cases (r.id == s.id)) [
  | inl here ↦
      let only : count (λ (q : AgentRun). q.id == s.id) runs ≡ 0 = ground (arith, one, here) in
      let old : r ≡ t = ground (arith, found, here) in
      rw (here, put_absent s runs only, sym old) (omega arith)
  | inr there ↦ rw there (ground (arith, pending-put s t runs, there, found, one))
]

pub keyed-put :
    (k : ℕ) (s : AgentRun) (runs : List AgentRun)
    → count (λ (r : AgentRun). r.id == k) (put run_key s runs)
      ≡ count (λ (r : AgentRun). r.id == k) runs
unfolding put
keyed-put k s [] = refl
keyed-put k s (r ∷ runs) = ground (arith, keyed-put k s runs)

pub oldest-none : (runs : List AgentRun) → oldest runs ≡ none → count is_pending runs ≡ 0
unfolding oldest
oldest-none [] e = refl
oldest-none (r ∷ runs) e = ground (arith, oldest-none runs)

pub oldest-pending :
    (runs : List AgentRun) (r : AgentRun) → oldest runs ≡ some r → is_pending r ≡ true
unfolding oldest
oldest-pending [] r e = ground arith
oldest-pending (s ∷ runs) r e = ground (arith, oldest-pending runs r)

-- The pick is the head, or the pick of the rest.
oldest-cases :
    (s r : AgentRun) (runs : List AgentRun)
    → oldest (s ∷ runs) ≡ some r
    → (s ≡ r) ⊎ (oldest runs ≡ some r)
unfolding oldest
oldest-cases s r runs e = elim (Option-cases (oldest runs)) [
  | inl n ↦ inl (ground (arith, e, n))
  | inr (t, f) ↦ elim (Bool-cases (is_pending s && before s t)) [
    | inl first ↦ inl (ground (arith, e, f, first))
    | inr later ↦ inr (ground (arith, e, f, later))
  ]
]

Keyed-tail : (s : AgentRun) (runs : List AgentRun) → Keyed (s ∷ runs) → Keyed runs
Keyed-tail s runs h k = omega (arith, h k)

pub oldest-lookup :
    (runs : List AgentRun) (r : AgentRun)
    → Keyed runs
    → oldest runs ≡ some r
    → lookup run_key r.id runs ≡ some r
unfolding oldest lookup
oldest-lookup [] r h e = ground arith
oldest-lookup (s ∷ runs) r h e = elim (oldest-cases s r runs e) [
  | inl same ↦ rw same (ground arith)
  | inr rest ↦
      let found = oldest-lookup runs r (Keyed-tail s runs h) rest in
      ground (arith, found, lookup-count r.id r runs found, h r.id)
]

-- Is a pending run to be taken before the one that is taken?
abbrev pub overtakes : AgentRun → List AgentRun → Bool
overtakes r runs = any (λ s. is_pending s && not (before r s)) runs

overtakes-none :
    (r : AgentRun) (runs : List AgentRun) → oldest runs ≡ none → overtakes r runs ≡ false
unfolding oldest
overtakes-none r [] e = refl
overtakes-none r (s ∷ runs) e = ground (arith, overtakes-none r runs)

before_trans : (r s t : AgentRun) → before r s ≡ true → before s t ≡ true → before r t ≡ true
before_trans r s t e f = ground arith

overtakes_mono :
    (r s : AgentRun) (runs : List AgentRun)
    → before r s ≡ true
    → overtakes s runs ≡ false
    → overtakes r runs ≡ false
overtakes_mono r s [] e f = refl
overtakes_mono r s (t ∷ runs) e f = ground (arith, before_trans r s t e, overtakes_mono r s runs e)

overtakes_head :
    (s : AgentRun) (runs : List AgentRun)
    → overtakes s runs ≡ false
    → overtakes s (s ∷ runs) ≡ false
overtakes_head s runs e = let self : before s s ≡ true = ground arith in ground (arith, self, e)

overtakes_tail :
    (s t : AgentRun) (runs : List AgentRun)
    → (is_pending s && before s t) ≡ false
    → overtakes t runs ≡ false
    → overtakes t (s ∷ runs) ≡ false
overtakes_tail s t runs e f = ground (arith, e, f)

pub oldest-first :
    (runs : List AgentRun) (r : AgentRun) → oldest runs ≡ some r → overtakes r runs ≡ false
unfolding oldest
oldest-first [] r e = ground arith
oldest-first (s ∷ runs) r e = elim (Option-cases (oldest runs)) [
  | inl n ↦
      let same : s ≡ r = ground (arith, e, n) in
      subst (λ q. overtakes q (s ∷ runs) ≡ false) same
        (overtakes_head s runs (overtakes-none s runs n))
  | inr (t, f) ↦
      let later = oldest-first runs t f in
      elim (Bool-cases (is_pending s && before s t)) [
        | inl first ↦
            let same : s ≡ r = ground (arith, e, f, first) in
            let earlier : before s t ≡ true = ground (arith, first) in
            subst (λ q. overtakes q (s ∷ runs) ≡ false) same
              (overtakes_head s runs (overtakes_mono s t runs earlier later))
        | inr after ↦
            let same : t ≡ r = ground (arith, e, f, after) in
            subst (λ q. overtakes q (s ∷ runs) ≡ false) same (overtakes_tail s t runs after later)
      ]
]
