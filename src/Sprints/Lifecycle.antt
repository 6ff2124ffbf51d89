-- ===== src/Sprints/Lifecycle.antt =====
-- At most one active sprint in a project, and what a closed sprint keeps.
use problem_bulletin.Prelude.{
  ℕ, ◌+◌, ◌≤◌, ◌≡◌, ◌==◌, ◌⊎◌, refl, sym, inl, inr, false, some, List, [], ◌∷◌, count, any, arith,
  if◌then◌else◌, Bool-cases,
}
use problem_bulletin.Prelude.Table.{lookup, put, remove}
use problem_bulletin.Sprints.{Sprint, sprint_key, is_running, is_active}

-- How many sprints of a project are active.
abbrev pub running : ℕ → List Sprint → ℕ
running project rows = count (is_running project) rows

-- A table has one row under its key.
abbrev pub Keyed : List Sprint → Type 0
Keyed rows = (k : ℕ) → count (λ (s : Sprint). s.id == k) rows ≤ 1

pub record IsExclusive (rows : List Sprint) : Type 0 where
  pub keyed : Keyed rows
  pub exclusive : (project : ℕ) → running project rows ≤ 1

keyed-put :
    (k : ℕ) (s : Sprint) (rows : List Sprint)
    → count (λ (r : Sprint). r.id == k) (put sprint_key s rows)
      ≡ count (λ (r : Sprint). r.id == k) rows
unfolding put
keyed-put k s [] = refl
keyed-put k s (r ∷ rows) = ground (arith, keyed-put k s rows)

put_absent :
    (s : Sprint) (rows : List Sprint)
    → count (λ (r : Sprint). r.id == s.id) rows ≡ 0
    → put sprint_key s rows ≡ rows
unfolding put
put_absent s [] e = refl
put_absent s (r ∷ rows) e = ground (arith, put_absent s rows)

-- Overwriting a row counts the new one where it counted the old.
running-put :
    (project : ℕ) (s t : Sprint) (rows : List Sprint)
    → count (λ (r : Sprint). r.id == s.id) rows ≤ 1
    → lookup sprint_key s.id rows ≡ some t
    → running project (put sprint_key s rows) + (if is_running project t then 1 else 0)
      ≡ running project rows + (if is_running project s then 1 else 0)
unfolding put lookup
running-put project s t [] one found = ground arith
running-put project s t (r ∷ rows) one found = elim (Bool-cases (r.id == s.id)) [
  | inl here ↦
      let only : count (λ (q : Sprint). q.id == s.id) rows ≡ 0 = ground (arith, one, here) in
      let old : r ≡ t = ground (arith, found, here) in
      rw (here, put_absent s rows only, sym old) (omega arith)
  | inr there ↦ rw there (ground (arith, running-put project s t rows, there, found, one))
]

keyed-remove :
    (j k : ℕ) (rows : List Sprint)
    → count (λ (r : Sprint). r.id == j) (remove sprint_key k rows)
      ≤ count (λ (r : Sprint). r.id == j) rows
unfolding remove
keyed-remove j k [] = omega arith
keyed-remove j k (r ∷ rows) = ground (arith, keyed-remove j k rows)

running-remove :
    (project k : ℕ) (rows : List Sprint)
    → running project (remove sprint_key k rows) ≤ running project rows
unfolding remove
running-remove project k [] = omega arith
running-remove project k (r ∷ rows) = ground (arith, running-remove project k rows)

running_none :
    (project : ℕ) (rows : List Sprint)
    → any (is_running project) rows ≡ false
    → running project rows ≡ 0
running_none project [] e = refl
running_none project (r ∷ rows) e = ground (arith, running_none project rows)

-- A row is overwritten by one that is not active, or where it was active already, or where no other
-- is.
pub put-IsExclusive :
    (s t : Sprint) (rows : List Sprint)
    → lookup sprint_key s.id rows ≡ some t
    → s.project_id ≡ t.project_id
    → (is_active s.state ≡ false)
      ⊎ (is_active s.state ≡ is_active t.state)
      ⊎ (any (is_running t.project_id) rows ≡ false)
    → IsExclusive rows
    → IsExclusive (put sprint_key s rows)
put-IsExclusive s t rows found same how h = record {
  keyed = λ k. rw (keyed-put k s rows) (h.keyed k);
  exclusive = λ project. ground (
    arith,
    how,
    running-put project s t rows (h.keyed s.id) found,
    running_none t.project_id rows,
    h.exclusive project,
  );
}

pub remove-IsExclusive :
    (k : ℕ) (rows : List Sprint) → IsExclusive rows → IsExclusive (remove sprint_key k rows)
remove-IsExclusive k rows h = record {
  keyed = λ j. omega (arith, keyed-remove j k rows, h.keyed j);
  exclusive = λ project. omega (arith, running-remove project k rows, h.exclusive project);
}
