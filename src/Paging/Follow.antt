-- ===== src/Paging/Follow.antt =====
-- Following the cursors.
use problem_bulletin.Prelude.{
  ℕ, zero, suc, ◌≡◌, refl, sym, ◌∙◌, inl, inr, Bool, true, false, List, [], ◌∷◌, filter, All, arith,
  Bool-cases, All-filter,
}
use problem_bulletin.Paging.{Key, older, insert, sort}
use problem_bulletin.Paging.Order.{
  same, older_trans, older_total, Descending, Distinct, All-sort, sort-Descending,
}

pub older_asym : (a b : Key) → older a b ≡ true → older b a ≡ false
older_asym a b h = ground arith

abbrev pub drop {ℓ} : {A : Type ℓ} → ℕ → List A → List A
drop zero xs = xs
drop (suc n) [] = []
drop (suc n) (x ∷ xs) = drop n xs

module _ {A : Type 0} (key : A → Key) where
  insert_front :
      (x : A) (zs : List A) → All (λ z. older (key z) (key x) ≡ true) zs → insert key x zs ≡ x ∷ zs
  unfolding insert
  insert_front x [] h = refl
  insert_front x (z ∷ zs) h = rw (older_asym (key z) (key x) h.0) refl

  -- A row of another age goes in the same place whether rows are taken out before or after.
  filter-insert_dropped :
      (p : A → Bool) (x : A) (ys : List A) → p x ≡ false → filter p (insert key x ys) ≡ filter p ys
  unfolding insert
  filter-insert_dropped p x [] e = rw e refl
  filter-insert_dropped p x (y ∷ ys) e = elim (Bool-cases (older (key x) (key y))) [
    | inl f ↦ rw (f, filter-insert_dropped p x ys e) refl
    | inr f ↦ rw (f, e) refl
  ]

  All-older :
      (a b : Key) (ys : List A)
      → older a b ≡ true
      → All (λ y. older (key y) a ≡ true) ys
      → All (λ y. older (key y) b ≡ true) ys
  All-older a b [] e h = tt
  All-older a b (y ∷ ys) e h = (older_trans (key y) a b h.0 e, All-older a b ys e h.1)

  filter-insert :
      (p : A → Bool) (x : A) (ys : List A)
      → p x ≡ true
      → All (λ y. same (key x) (key y) ≡ false) ys
      → Descending key ys
      → filter p (insert key x ys) ≡ insert key x (filter p ys)
  unfolding insert
  filter-insert p x [] e d h = rw e refl
  filter-insert p x (y ∷ ys) e d h = elim (Bool-cases (older (key x) (key y))) [
    | inl f ↦ elim (Bool-cases (p y)) [
      | inl k ↦ rw (f, k, filter-insert p x ys e d.1 h.1) (rw f refl)
      | inr k ↦ rw (f, k, filter-insert p x ys e d.1 h.1) refl
    ]
    | inr f ↦
        let lower = older_total (key x) (key y) f d.0 in
        let rest : All (λ z. older (key z) (key x) ≡ true) (y ∷ ys) =
          (lower, All-older (key y) (key x) ys lower h.0) in
        rw (f, e)
          (sym (
            insert_front x (filter p (y ∷ ys))
              (All-filter (λ z. older (key z) (key x) ≡ true) p (y ∷ ys) rest)))
  ]

  pub sort-filter :
      (p : A → Bool) (xs : List A)
      → Distinct key xs
      → sort key (filter p xs) ≡ filter p (sort key xs)
  unfolding sort
  sort-filter p [] d = refl
  sort-filter p (x ∷ xs) d = elim (Bool-cases (p x)) [
    | inl e ↦
        rw (e, sort-filter p xs d.1)
          (sym (
            filter-insert p x (sort key xs) e
              (All-sort key (λ y. same (key x) (key y) ≡ false) xs d.0)
              (sort-Descending key xs d.1)))
    | inr e ↦ rw e (sort-filter p xs d.1 ∙ sym (filter-insert_dropped p x (sort key xs) e))
  ]
