-- ===== src/Paging.antt =====
-- Keyset pagination, as list_page and list_activity of app/services/tickets.py and the inbox lists of
-- app/services/ticket_notifications.py have it: rows in descending order of a time and an id, a
-- cursor that names the last row of a page, and one row more than the page to see whether there is
-- another.
pub mod Order
pub mod Follow
pub mod Pages
pub mod Total
pub mod Client
use problem_bulletin.Prelude.{
  ℕ, zero, suc, ◌+◌, ◌==◌, Bool, true, false, ◌&&◌, ◌||◌, Option, none, some, List, [], ◌∷◌, ◌++◌,
  length, filter, ltb, leb, if◌then◌else◌,
}

-- The time and the id of a row, as a cursor encodes them.
abbrev pub Key : Type 0
Key = ℕ × ℕ

-- `(t, i) < (t', i')`
abbrev pub older : Key → Key → Bool
older (t, i) (t', i') = ltb t t' || t == t' && ltb i i'

-- `xs[:n]`
abbrev pub take {ℓ} : {A : Type ℓ} → ℕ → List A → List A
take zero xs = []
take (suc n) [] = []
take (suc n) (x ∷ xs) = x ∷ take n xs

pub record Page (A : Type 0) : Type 0 where
  pub items : List A
  pub next_cursor : Option Key

module _ {A : Type 0} (key : A → Key) where
  -- `ORDER BY time DESC, id DESC`
  unfoldable pub insert : A → List A → List A
  insert x [] = x ∷ []
  insert x (y ∷ ys) =
      let rest = insert x ys in if older (key x) (key y) then y ∷ rest else x ∷ y ∷ ys

  unfoldable pub sort : List A → List A
  unfolding insert
  sort [] = []
  sort (x ∷ xs) = insert x (sort xs)

  -- The rows that come after the cursor.
  abbrev pub is_after : Option Key → A → Bool
  is_after none x = true
  is_after (some c) x = older (key x) c

  abbrev pub last_key : List A → Option Key
  last_key [] = none
  last_key (x ∷ []) = some (key x)
  last_key (x ∷ y ∷ xs) = last_key (y ∷ xs)

  -- `rows[:limit]`, and the cursor of its last row if there are more rows; `rows` is what the
  -- database returns for a limit of one more
  unfoldable pub cut : ℕ → List A → Page A
  cut limit rows = record {
    items = take limit rows;
    next_cursor = (if ltb limit (length rows) then last_key (take limit rows) else none);
  }

  unfoldable pub page : ℕ → Option Key → List A → Page A
  unfolding cut sort
  page limit cursor rows = cut limit (take (suc limit) (sort (filter (is_after cursor) rows)))

  -- A client that follows the cursors, for at most `fuel` pages.
  unfoldable pub follow : ℕ → ℕ → Option Key → List A → List A
  follow zero limit cursor rows = []
  follow (suc fuel) limit cursor rows =
      let p = page limit cursor rows in
      p.items ++ elim p.next_cursor [ none ↦ [] | some c ↦ follow fuel limit (some c) rows ]
