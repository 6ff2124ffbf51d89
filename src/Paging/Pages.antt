-- ===== src/Paging/Pages.antt =====
-- What a client sees that follows the cursors to the end.
use mathlib.Core.Path.{subst}
use problem_bulletin.Prelude.{
  ℕ, zero, suc, ◌-◌, ◌≡◌, ◌≤◌, ◌<◌, refl, ap, true, false, some, List, [], ◌∷◌, ◌++◌, length,
  filter, ltb, All, arith,
}
use problem_bulletin.Paging.{Key, older, take, is_after, last_key}
use problem_bulletin.Paging.Order.{Descending}
use problem_bulletin.Paging.Follow.{drop, older_asym}

pub take-drop {ℓ} : {A : Type ℓ} (n : ℕ) (xs : List A) → take n xs ++ drop n xs ≡ xs
take-drop zero xs = refl
take-drop (suc n) [] = refl
take-drop (suc n) (x ∷ xs) = ap (◌∷◌ x) (take-drop n xs)

pub take-take-suc {ℓ} : {A : Type ℓ} (n : ℕ) (xs : List A) → take n (take (suc n) xs) ≡ take n xs
take-take-suc zero xs = refl
take-take-suc (suc n) [] = refl
take-take-suc (suc n) (x ∷ xs) = ap (◌∷◌ x) (take-take-suc n xs)

pub ltb-length-take {ℓ} :
    {A : Type ℓ} (n : ℕ) (xs : List A) → ltb n (length (take (suc n) xs)) ≡ ltb n (length xs)
ltb-length-take zero [] = refl
ltb-length-take zero (x ∷ xs) = ground arith
ltb-length-take (suc n) [] = refl
ltb-length-take (suc n) (x ∷ xs) = ground (arith, ltb-length-take n xs)

pub length-drop {ℓ} : {A : Type ℓ} (n : ℕ) (xs : List A) → length (drop n xs) ≡ length xs - n
length-drop zero xs = omega arith
length-drop (suc n) [] = omega arith
length-drop (suc n) (x ∷ xs) = omega (arith, length-drop n xs)

pub take_all {ℓ} : {A : Type ℓ} (n : ℕ) (xs : List A) → length xs ≤ n → take n xs ≡ xs
take_all zero [] h = refl
take_all zero (x ∷ xs) h = absurd (omega arith)
take_all (suc n) [] h = refl
take_all (suc n) (x ∷ xs) h = ap (◌∷◌ x) (take_all n xs (omega arith))

module _ {A : Type 0} (key : A → Key) where
  older_self : (c : Key) → older c c ≡ false
  older_self c = ground arith

  keep-All :
      (c : Key) (xs : List A)
      → All (λ y. older (key y) c ≡ true) xs
      → filter (is_after key (some c)) xs ≡ xs
  keep-All c [] h = refl
  keep-All c (x ∷ xs) h = rw h.0 (ap (◌∷◌ x) (keep-All c xs h.1))

  pub last_key-All :
      (P : Key → Type 0) (n : ℕ) (xs : List A) (c : Key)
      → All (λ y. P (key y)) xs
      → last_key key (take n xs) ≡ some c
      → P c
  last_key-All P zero xs c h e = ground arith
  last_key-All P (suc n) [] c h e = ground arith
  last_key-All P (suc zero) (x ∷ xs) c h e = subst P (ground arith) h.0
  last_key-All P (suc (suc n)) (x ∷ []) c h e = subst P (ground arith) h.0
  last_key-All P (suc (suc n)) (x ∷ y ∷ xs) c h e = last_key-All P (suc n) (y ∷ xs) c h.1 e

  -- The rows after the last of a page are the rest.
  pub after_page :
      (n : ℕ) (xs : List A) (c : Key)
      → Descending key xs
      → suc n < length xs
      → last_key key (take (suc n) xs) ≡ some c
      → filter (is_after key (some c)) xs ≡ drop (suc n) xs
  after_page n [] c d h e = absurd (omega arith)
  after_page zero (x ∷ xs) c d h e =
      let same_key : key x ≡ c = ground arith in
      subst (λ k. filter (is_after key (some k)) (x ∷ xs) ≡ xs) same_key
        (rw (older_self (key x)) (keep-All (key x) xs d.0))
  after_page (suc n) (x ∷ []) c d h e = absurd (omega arith)
  after_page (suc n) (x ∷ y ∷ xs) c d h e =
      let below = last_key-All (λ k. older k (key x) ≡ true) (suc n) (y ∷ xs) c d.0 e in
      rw (older_asym c (key x) below) (after_page n (y ∷ xs) c d.1 (omega arith) e)

  pub last_key-some :
      (n : ℕ) (x : A) (xs : List A) → (c : Key) × (last_key key (take (suc n) (x ∷ xs)) ≡ some c)
  last_key-some zero x xs = (key x, refl)
  last_key-some (suc n) x [] = (key x, refl)
  last_key-some (suc n) x (y ∷ xs) = last_key-some n y xs
