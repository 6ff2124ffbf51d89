-- ===== src/Paging/Order.antt =====
-- The order of the rows.
use problem_bulletin.Prelude.{
  ◌==◌, ◌≡◌, inl, inr, Bool, true, false, ◌&&◌, List, [], ◌∷◌, All, arith, Bool-cases,
}
use problem_bulletin.Paging.{Key, older, insert, sort}

abbrev pub same : Key → Key → Bool
same (t, i) (t', i') = t == t' && i == i'

pub older_trans : (a b c : Key) → older a b ≡ true → older b c ≡ true → older a c ≡ true
older_trans a b c h k = ground arith

pub older_total : (a b : Key) → older a b ≡ false → same a b ≡ false → older b a ≡ true
older_total a b h k = ground arith

module _ {A : Type 0} (key : A → Key) where
  -- Each row is younger than all that follow.
  abbrev pub Descending : List A → Type 0
  Descending [] = Unit
  Descending (x ∷ xs) = All (λ y. older (key y) (key x) ≡ true) xs × Descending xs

  abbrev pub Distinct : List A → Type 0
  Distinct [] = Unit
  Distinct (x ∷ xs) = All (λ y. same (key x) (key y) ≡ false) xs × Distinct xs

  All-insert : (P : A → Type 0) (x : A) (ys : List A) → P x → All P ys → All P (insert key x ys)
  unfolding insert
  All-insert P x [] p h = (p, tt)
  All-insert P x (y ∷ ys) p h = elim (Bool-cases (older (key x) (key y))) [
    | inl e ↦ rw e (h.0, All-insert P x ys p h.1)
    | inr e ↦ rw e (p, h)
  ]

  pub All-sort : (P : A → Type 0) (xs : List A) → All P xs → All P (sort key xs)
  unfolding sort
  All-sort P [] h = tt
  All-sort P (x ∷ xs) h = All-insert P x (sort key xs) h.0 (All-sort P xs h.1)

  All-below :
      (a b : Key) (ys : List A)
      → older a b ≡ true
      → All (λ y. older (key y) a ≡ true) ys
      → All (λ y. older (key y) b ≡ true) ys
  All-below a b [] e h = tt
  All-below a b (y ∷ ys) e h = (older_trans (key y) a b h.0 e, All-below a b ys e h.1)

  insert-Descending :
      (x : A) (ys : List A)
      → All (λ y. same (key x) (key y) ≡ false) ys
      → Descending ys
      → Descending (insert key x ys)
  unfolding insert
  insert-Descending x [] d h = (tt, tt)
  insert-Descending x (y ∷ ys) d h = elim (Bool-cases (older (key x) (key y))) [
    | inl e ↦
        rw e (
          All-insert (λ z. older (key z) (key y) ≡ true) x ys e h.0,
          insert-Descending x ys d.1 h.1,
        )
    | inr e ↦
        let lower = older_total (key x) (key y) e d.0 in
        rw e ((lower, All-below (key y) (key x) ys lower h.0), h)
  ]

  pub sort-Descending : (xs : List A) → Distinct xs → Descending (sort key xs)
  unfolding sort
  sort-Descending [] d = tt
  sort-Descending (x ∷ xs) d =
      insert-Descending x (sort key xs) (All-sort (λ y. same (key x) (key y) ≡ false) xs d.0)
        (sort-Descending xs d.1)
