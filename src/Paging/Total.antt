-- ===== src/Paging/Total.antt =====
-- The pages together.
use mathlib.Core.List.{append-nil}
use problem_bulletin.Prelude.{
  ℕ, zero, suc, ◌-◌, ◌*◌, ◌≡◌, ◌≤◌, ◌<◌, refl, sym, ap, ◌∙◌, inl, inr, Bool, true, Option, none,
  some, List, [], ◌∷◌, length, filter, ltb, All, arith, if◌then◌else◌, Bool-cases, All-filter,
}
use problem_bulletin.Paging.{Key, older, take, sort, is_after, last_key, page, follow}
use problem_bulletin.Paging.Order.{older_trans, Descending, Distinct, sort-Descending}
use problem_bulletin.Paging.Follow.{drop, sort-filter}
use problem_bulletin.Paging.Pages.{
  take-drop, take-take-suc, ltb-length-take, length-drop, take_all, last_key-All, after_page,
  last_key-some,
}

filter-filter {ℓ} :
    {A : Type ℓ} (p q : A → Bool) (xs : List A)
    → ((x : A) → p x ≡ true → q x ≡ true)
    → filter p (filter q xs) ≡ filter p xs
filter-filter p q [] h = refl
filter-filter p q (x ∷ xs) h = ground (arith, h x, filter-filter p q xs h)

pub filter-true {ℓ} : {A : Type ℓ} (xs : List A) → filter (λ _. true) xs ≡ xs
filter-true [] = refl
filter-true (x ∷ xs) = ap (◌∷◌ x) (filter-true xs)

All-kept {ℓ} : {A : Type ℓ} (p : A → Bool) (xs : List A) → All (λ x. p x ≡ true) (filter p xs)
All-kept p [] = tt
All-kept p (x ∷ xs) = elim (Bool-cases (p x)) [
  | inl e ↦ rw e (e, All-kept p xs)
  | inr e ↦ rw e (All-kept p xs)
]

module _ {A : Type 0} (key : A → Key) (rows : List A) where
  -- The matching rows in order, from the cursor on.
  abbrev pub rest_of : Option Key → List A
  rest_of cursor = filter (is_after key cursor) (sort key rows)

  filter-Descending :
      (p : A → Bool) (xs : List A) → Descending key xs → Descending key (filter p xs)
  filter-Descending p [] d = tt
  filter-Descending p (x ∷ xs) d = elim (Bool-cases (p x)) [
    | inl e ↦
        rw e (All-filter (λ y. older (key y) (key x) ≡ true) p xs d.0, filter-Descending p xs d.1)
    | inr e ↦ rw e (filter-Descending p xs d.1)
  ]

  page_lem :
      (limit : ℕ) (cursor : Option Key)
      → Distinct key rows
      → page key limit cursor rows ≡ record {
        items = take limit (rest_of cursor);
        next_cursor =
            (if ltb limit (length (rest_of cursor))
              then last_key key (take limit (rest_of cursor))
              else none);
      }
  unfolding page
  page_lem limit cursor d =
      rw
        (
          sort-filter key (is_after key cursor) rows d,
          take-take-suc limit (rest_of cursor),
          ltb-length-take limit (rest_of cursor),
        )
        refl

  -- The rows after a later cursor are found among the rows after an earlier one.
  rest_later :
      (cursor : Option Key) (m : ℕ) (c : Key)
      → last_key key (take m (rest_of cursor)) ≡ some c
      → filter (is_after key (some c)) (rest_of cursor) ≡ rest_of (some c)
  rest_later none m c e =
      filter-filter (is_after key (some c)) (λ _. true) (sort key rows) (λ x h. refl)
  rest_later (some b) m c e =
      let later =
        last_key-All key (λ k. older k b ≡ true) m (rest_of (some b)) c
          (All-kept (is_after key (some b)) (sort key rows)) e in
      filter-filter (is_after key (some c)) (is_after key (some b)) (sort key rows)
        (λ x h. older_trans (key x) c b h later)

  empty_rest {ℓ} : {B : Type ℓ} (xs : List B) → length xs ≤ 0 → xs ≡ []
  empty_rest [] h = refl
  empty_rest (x ∷ xs) h = absurd (omega arith)

  last_exists :
      (m : ℕ) (xs : List A) → 0 < length xs → (c : Key) × (last_key key (take (suc m) xs) ≡ some c)
  last_exists m [] h = absurd (omega arith)
  last_exists m (x ∷ xs) h = last_key-some key m x xs

  -- The first page and the rows after its last one are all the rows.
  page-rest :
      (m : ℕ) (cursor : Option Key) (c : Key)
      → Distinct key rows
      → suc m < length (rest_of cursor)
      → last_key key (take (suc m) (rest_of cursor)) ≡ some c
      → rest_of (some c) ≡ drop (suc m) (rest_of cursor)
  page-rest m cursor c d lt e =
      sym (rest_later cursor (suc m) c e)
      ∙ after_page key m (rest_of cursor) c
          (filter-Descending (is_after key cursor) (sort key rows) (sort-Descending key rows d)) lt
          e

  shorter : (m n fuel : ℕ) → n ≤ suc fuel * suc m → n - suc m ≤ fuel * suc m
  shorter m n fuel h = grind arith

  pub follow-rest_of :
      (fuel m : ℕ) (cursor : Option Key)
      → Distinct key rows
      → length (rest_of cursor) ≤ fuel * suc m
      → follow key fuel (suc m) cursor rows ≡ rest_of cursor
  unfolding follow
  follow-rest_of zero m cursor d h = sym (empty_rest (rest_of cursor) (omega arith))
  follow-rest_of (suc fuel) m cursor d h =
      rw (page_lem (suc m) cursor d) (elim (Bool-cases (ltb (suc m) (length (rest_of cursor)))) [
        | inr all ↦ rw (all, append-nil) (take_all (suc m) (rest_of cursor) (ground (arith, all)))
        | inl more ↦
            let lt : suc m < length (rest_of cursor) = ground (arith, more) in
            let (c, e) = last_exists m (rest_of cursor) (omega (arith, lt)) in
            let tail = page-rest m cursor c d lt e in
            let fits : length (rest_of (some c)) ≤ fuel * suc m = omega (
              arith,
              ap length tail,
              length-drop (suc m) (rest_of cursor),
              shorter m (length (rest_of cursor)) fuel h,
            ) in
            rw (more, e, follow-rest_of fuel m (some c) d fits, tail)
              (take-drop (suc m) (rest_of cursor))
      ])
