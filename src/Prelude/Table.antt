-- ===== src/Prelude/Table.antt =====
-- A database table: its rows under a primary key. The order of rows carries no meaning; a new row
-- is put in front.
use mathlib.Core.Option
use problem_bulletin.Prelude.{
  ℕ, ◌≡◌, refl, Bool, false, Option, none, some, List, [], ◌∷◌, map, count, arith, ◌==◌,
  if◌then◌else◌,
}

module _ {ℓ} {A : Type ℓ} (key : A → ℕ) where
  -- `select(A).where(A.id == k)`
  unfoldable pub lookup : ℕ → List A → Option A
  lookup k [] = none
  lookup k (r ∷ rows) = let rest = lookup k rows in if key r == k then some r else rest

  -- A changed row is flushed: the row with its key is overwritten.
  unfoldable pub put : A → List A → List A
  put r [] = []
  put r (s ∷ rows) = let rest = put r rows in if key s == key r then r ∷ rest else s ∷ rest

  -- `delete(A).where(A.id == k)`
  unfoldable pub remove : ℕ → List A → List A
  remove k [] = []
  remove k (r ∷ rows) = let rest = remove k rows in if key r == k then rest else r ∷ rest

  pub lookup_key : (k : ℕ) (rows : List A) {r : A} → lookup k rows ≡ some r → key r ≡ k
  unfolding lookup
  lookup_key k [] h = cc
  lookup_key k (r ∷ rows) {r = x} h = ground (arith, lookup_key k rows {r = x})

  pub lookup-cons :
      (k : ℕ) (r : A) (rows : List A)
      → lookup k (r ∷ rows) ≡ (if key r == k then some r else lookup k rows)
  unfolding lookup
  lookup-cons k r rows = refl

  -- What a lookup finds after a row is overwritten.
  abbrev pub replaced : A → Option A → Option A
  replaced r none = none
  replaced r (some _) = some r

  pub lookup-put :
      (k : ℕ) (r : A) (rows : List A)
      → lookup k (put r rows) ≡ (if key r == k then replaced r (lookup k rows) else lookup k rows)
  unfolding lookup put
  lookup-put k r [] = ground arith
  lookup-put k r (s ∷ rows) = ground (arith, lookup-put k r rows)

  pub lookup-remove :
      (j k : ℕ) (rows : List A)
      → lookup j (remove k rows) ≡ (if k == j then none else lookup j rows)
  unfolding lookup remove
  lookup-remove j k [] = ground arith
  lookup-remove j k (r ∷ rows) = ground (arith, lookup-remove j k rows)

  -- `update(A).values(...)` over all rows, which leaves the keys alone.
  pub lookup-map :
      (f : A → A) (k : ℕ) (rows : List A)
      → ((r : A) → key (f r) ≡ key r)
      → lookup k (map f rows) ≡ Option.map f (lookup k rows)
  unfolding lookup
  lookup-map f k [] same = refl
  lookup-map f k (r ∷ rows) same = ground (arith, same r, lookup-map f k rows same)

  -- A row that a lookup finds passes no test that no row passes.
  pub lookup-count_zero :
      (test : A → Bool) (k : ℕ) (rows : List A) {r : A}
      → count test rows ≡ 0
      → lookup k rows ≡ some r
      → test r ≡ false
  unfolding lookup
  lookup-count_zero test k [] none_pass found = cc
  lookup-count_zero test k (r ∷ rows) {r = x} none_pass found =
      ground (arith, lookup-count_zero test k rows {r = x})
