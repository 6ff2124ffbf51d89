-- ===== src/Prelude/Keyed.antt =====
-- A table with one row under each key, and how many of its rows pass a test.
use problem_bulletin.Prelude.{
  ℕ, ◌+◌, ◌≤◌, ◌≡◌, ◌==◌, refl, sym, inl, inr, Bool, some, List, [], ◌∷◌, count, arith,
  if◌then◌else◌, Bool-cases,
}
use problem_bulletin.Prelude.Table.{lookup, put}

module _ {A : Type 0} (key : A → ℕ) where
  abbrev pub has_key : ℕ → A → Bool
  has_key k r = key r == k

  abbrev pub IsKeyed : List A → Type 0
  IsKeyed rows = (k : ℕ) → count (has_key k) rows ≤ 1

  pub count_key-put :
      (k : ℕ) (r : A) (rows : List A) → count (has_key k) (put key r rows) ≡ count (has_key k) rows
  unfolding put
  count_key-put k r [] = refl
  count_key-put k r (s ∷ rows) = ground (arith, count_key-put k r rows)

  put_absent : (r : A) (rows : List A) → count (has_key (key r)) rows ≡ 0 → put key r rows ≡ rows
  unfolding put
  put_absent r [] e = refl
  put_absent r (s ∷ rows) e = ground (arith, put_absent r rows)

  -- Overwriting a row counts the new one where it counted the old.
  pub count-put :
      (test : A → Bool) (r s : A) (rows : List A)
      → count (has_key (key r)) rows ≤ 1
      → lookup key (key r) rows ≡ some s
      → count test (put key r rows) + (if test s then 1 else 0)
        ≡ count test rows + (if test r then 1 else 0)
  unfolding put lookup
  count-put test r s [] one found = ground arith
  count-put test r s (t ∷ rows) one found = elim (Bool-cases (key t == key r)) [
    | inl here ↦
        let only : count (has_key (key r)) rows ≡ 0 = ground (arith, one, here) in
        let old : t ≡ s = ground (arith, found, here) in
        rw (here, put_absent r rows only, sym old) (omega arith)
    | inr there ↦ rw there (ground (arith, count-put test r s rows, there, found, one))
  ]
