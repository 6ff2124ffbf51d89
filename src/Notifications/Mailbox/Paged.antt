-- ===== src/Notifications/Mailbox/Paged.antt =====
-- The pages of an inbox together.
use mathlib.Core.Path.{subst}
use problem_bulletin.Prelude.{
  ℤ, pos, negsuc, ℕ, zero, suc, ◌*◌, ◌==◌, ◌≡◌, ◌≤◌, refl, ap, ◌∙◌, inl, inr, Bool, false, ◌&&◌,
  Option, none, some, List, [], ◌∷◌, length, filter, All, arith, leb, Bool-cases,
}
use problem_bulletin.Prelude.Text.{Text}
use problem_bulletin.Domain.{Person}
use problem_bulletin.Paging.{Key, Page, sort, page}
use problem_bulletin.Paging.Order.{same, Distinct, Descending, sort-Descending}
use problem_bulletin.Paging.Client.{
  printed, Readable, cursor_pair-printed, Seen, all_pages, all_pages-sort,
}
use problem_bulletin.Notifications.Mailbox.{
  Mail, mail_time, addressed, wanted, max_limit, limit_of, InboxPage, list_under, list_for,
  list_for_recipient,
}

-- No two rows have one id.
abbrev pub UniqueMails : List Mail → Type 0
UniqueMails [] = Unit
UniqueMails (m ∷ mails) = All (λ n. (m.id == n.id) ≡ false) mails × UniqueMails mails

All-apart :
    (keep : Mail → Bool) (m : Mail) (mails : List Mail)
    → All (λ n. (m.id == n.id) ≡ false) mails
    → All (λ n. same (mail_time m) (mail_time n) ≡ false) (filter keep mails)
All-apart keep m [] h = tt
All-apart keep m (n ∷ mails) h = elim (Bool-cases (keep n)) [
  | inl e ↦ rw e (ground (arith, h.0), All-apart keep m mails h.1)
  | inr e ↦ rw e (All-apart keep m mails h.1)
]

UniqueMails-Distinct :
    (keep : Mail → Bool) (mails : List Mail)
    → UniqueMails mails
    → Distinct mail_time (filter keep mails)
UniqueMails-Distinct keep [] h = tt
UniqueMails-Distinct keep (m ∷ mails) h = elim (Bool-cases (keep m)) [
  | inl e ↦ rw e (All-apart keep m mails h.0, UniqueMails-Distinct keep mails h.1)
  | inr e ↦ rw e (UniqueMails-Distinct keep mails h.1)
]

positive : (limit : ℤ) → (m : ℕ) × (limit_of limit ≡ suc m)
positive (pos zero) = (49, refl)
positive (pos (suc n)) = elim (Bool-cases (leb (suc n) max_limit)) [
  | inl e ↦ (n, rw e refl)
  | inr e ↦ (199, rw e refl)
]
positive (negsuc n) = (0, refl)

abbrev seen : Option InboxPage → Seen Mail
seen none = none
seen (some p) = some (p.items, p.next_cursor)

-- The rows of a recipient that a list without a page size would have.
abbrev pub inbox : Person → Bool → List Mail → List Mail
inbox p only_unread mails = filter (λ m. addressed p m && wanted only_unread m) mails

module _ (decode : Text → Option Key) (encode : Key → Text) where
  abbrev pub ask : Person → Bool → ℤ → List Mail → Option Text → Seen Mail
  ask p only_unread limit mails cursor =
      seen (list_for_recipient decode encode p only_unread cursor limit mails)

  answers :
      (readable : Readable decode encode) (p : Person) (only_unread : Bool) (limit : ℤ)
      (mails : List Mail) (c : Option Key)
      → ask p only_unread limit mails (printed decode encode c)
        ≡ some (
          (page mail_time (limit_of limit) c (inbox p only_unread mails)).items,
          printed decode encode
              (page mail_time (limit_of limit) c (inbox p only_unread mails)).next_cursor,
        )
  unfolding list_for_recipient list_for
  answers readable p only_unread limit mails c =
      ap (λ r. seen (list_under decode encode (addressed p) only_unread limit mails r))
        (cursor_pair-printed decode encode readable c)

  -- Whatever limit a client gives, also none or one below zero: if it follows the cursors of
  -- `list_for_recipient` from the first page for so many requests that the page size which the
  -- code makes of the limit times their number is at least the number of the recipient's rows (its unread
  -- rows, if it asks for these only), it sees exactly these rows, the youngest first. It takes that no two rows have one
  -- id, that a printed cursor is read back as it was, and that the empty text is no cursor.
  inbox_pages-sort :
      (readable : Readable decode encode) (p : Person) (only_unread : Bool) (limit : ℤ)
      (mails : List Mail) (fuel : ℕ)
      → UniqueMails mails
      → length (inbox p only_unread mails) ≤ fuel * limit_of limit
      → (all_pages (ask p only_unread limit mails) fuel none
          ≡ some (sort mail_time (inbox p only_unread mails)))
        × Descending mail_time (sort mail_time (inbox p only_unread mails))
  inbox_pages-sort readable p only_unread limit mails fuel unique enough =
      let (m, e) = positive limit in
      let rows = inbox p only_unread mails in
      let answer : Page Mail → Seen Mail =
        λ r. some (r.items, printed decode encode r.next_cursor) in
      let d = UniqueMails-Distinct (λ n. addressed p n && wanted only_unread n) mails unique in
      (
        all_pages-sort decode encode mail_time (inbox p only_unread mails) m
            (ask p only_unread limit mails)
            (λ c.
              answers readable p only_unread limit mails c
              ∙ ap (λ l. answer (page mail_time l c rows)) e)
            fuel d (subst (λ l. length rows ≤ fuel * l) e enough),
        sort-Descending mail_time (inbox p only_unread mails) d,
      )
