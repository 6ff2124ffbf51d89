-- ===== src/Paging/Client.antt =====
-- Cursors as texts, and a client that asks for page after page.
use mathlib.Core.List.{append-nil}
use problem_bulletin.Prelude.{
  ℕ, zero, suc, ◌*◌, ◌≡◌, ◌≤◌, refl, sym, ap, ◌∙◌, true, Option, none, some, List, [], ◌∷◌, ◌++◌,
  length, filter, arith,
}
use problem_bulletin.Prelude.Text.{Text}
use problem_bulletin.Paging.{Key, insert, sort, page, follow}
use problem_bulletin.Paging.Order.{Distinct}
use problem_bulletin.Paging.Total.{follow-rest_of, filter-true}

module _ (decode : Text → Option Key) (encode : Key → Text) where
  -- `if cursor: ... = _decode_cursor(cursor)`; the outer option is the raise
  abbrev pub cursor_pair : Option Text → Option (Option Key)
  cursor_pair none = some none
  cursor_pair (some []) = some none
  cursor_pair (some (c ∷ s)) = elim (decode (c ∷ s)) [ none ↦ none | some k ↦ some (some k) ]

  abbrev pub printed : Option Key → Option Text
  printed none = none
  printed (some k) = some (encode k)

  -- What callers rely on in `encode_cursor` and `decode_cursor`.
  pub record Readable : Type 0 where
    pub round_trip : (k : Key) → decode (encode k) ≡ some k
    pub empty_text : decode [] ≡ none

  module _ (readable : Readable) where
    pub cursor_pair-printed : (c : Option Key) → cursor_pair (printed c) ≡ some c
    cursor_pair-printed none = refl
    cursor_pair-printed (some k) = nonempty (encode k) (readable.round_trip k)
      where
        nonempty : (s : Text) → decode s ≡ some k → cursor_pair (some s) ≡ some (some k)
        nonempty [] h = ground (arith, readable.empty_text)
        nonempty (c ∷ s) h = rw (cursor_pair, h) refl

-- What a client sees of a page: its items and its cursor, or none on an error.
abbrev pub Seen : Type 0 → Type 0
Seen A = Option (List A × Option Text)

module _ {A : Type 0} where
  abbrev prepend : List A → Option (List A) → Option (List A)
  prepend items none = none
  prepend items (some rest) = some (items ++ rest)

  abbrev with_rest : List A → Option Text → (Text → Option (List A)) → Option (List A)
  with_rest items none rest = some items
  with_rest items (some c) rest = prepend items (rest c)

  abbrev go_on : Seen A → (Text → Option (List A)) → Option (List A)
  go_on none rest = none
  go_on (some (items, next)) rest = with_rest items next rest

  -- Asks for at most `fuel` pages and puts their items together; none on an error.
  unfoldable pub all_pages : (Option Text → Seen A) → ℕ → Option Text → Option (List A)
  all_pages ask zero cursor = some []
  all_pages ask (suc fuel) cursor = go_on (ask cursor) (λ c. all_pages ask fuel (some c))

module _ {A : Type 0} (decode : Text → Option Key) (encode : Key → Text) (key : A → Key)
    (rows : List A) (m : ℕ) (ask : Option Text → Seen A)
    (answers : (c : Option Key)
      → ask (printed decode encode c)
        ≡ some (
          (page key (suc m) c rows).items,
          printed decode encode (page key (suc m) c rows).next_cursor,
        )) where
  onwards :
      (fuel : ℕ) (items : List A) (next : Option Key)
      → ((k : Key)
          → all_pages ask fuel (some (encode k)) ≡ some (follow key fuel (suc m) (some k) rows))
      → with_rest items (printed decode encode next) (λ c. all_pages ask fuel (some c))
        ≡ some (items ++ elim next [ none ↦ [] | some c ↦ follow key fuel (suc m) (some c) rows ])
  onwards fuel items none rest = ap some (sym (append-nil items))
  onwards fuel items (some k) rest = ap (prepend items) (rest k)

  all_pages-follow :
      (fuel : ℕ) (c : Option Key)
      → all_pages ask fuel (printed decode encode c) ≡ some (follow key fuel (suc m) c rows)
  unfolding all_pages follow page
  all_pages-follow zero c = refl
  all_pages-follow (suc fuel) c =
      ap (λ seen. go_on seen (λ c. all_pages ask fuel (some c))) (answers c)
      ∙ onwards fuel (page key (suc m) c rows).items (page key (suc m) c rows).next_cursor
          (λ k. all_pages-follow fuel (some k))

  length-insert : (x : A) (ys : List A) → length (insert key x ys) ≡ suc (length ys)
  unfolding insert
  length-insert x [] = refl
  length-insert x (y ∷ ys) = ground (arith, length-insert x ys)

  length-sort : (xs : List A) → length (sort key xs) ≡ length xs
  unfolding sort
  length-sort [] = refl
  length-sort (x ∷ xs) = length-insert x (sort key xs) ∙ ap suc (length-sort xs)

  pub all_pages-sort :
      (fuel : ℕ)
      → Distinct key rows
      → length rows ≤ fuel * suc m
      → all_pages ask fuel none ≡ some (sort key rows)
  all_pages-sort fuel distinct enough =
      let all = filter-true (sort key rows) in
      let fits : length (filter (λ _. true) (sort key rows)) ≤ fuel * suc m =
        omega (arith, ap length all, length-sort rows, enough) in
      all_pages-follow fuel none ∙ ap some (follow-rest_of key rows fuel m none distinct fits ∙ all)
