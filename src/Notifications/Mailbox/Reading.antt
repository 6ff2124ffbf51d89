-- ===== src/Notifications/Mailbox/Reading.antt =====
-- What reading does to the unread rows.
use mathlib.Core.Path.{subst, fun_ext}
use problem_bulletin.Prelude.{
  ℕ, ◌+◌, ◌==◌, ◌≡◌, refl, ap, ◌∙◌, inl, inr, Bool, true, false, not, ◌&&◌, none, some, List, [],
  ◌∷◌, any, count, map, arith, if◌then◌else◌, Bool-cases, Option-cases,
}
use problem_bulletin.Prelude.Table.{lookup, put, lookup-put, lookup_key}
use problem_bulletin.Domain.{Person, person_eq, agent, party_eq, party_eq_iff}
use problem_bulletin.Domain.Runs.{AgentAccount}
use problem_bulletin.Notifications.Mailbox.{
  Mail, mail_key, addressed, is_unread, resolve_owned_agent_ids, Reader, recipient, agents_of,
  Refusal, missing, Answer, ok, refused, as_read, refusal, mark_read, settle, check_row, read_owned,
  read_rows, mark_all_read, unread_count,
}

-- Whose rows a reader reads.
abbrev pub reads : Reader → List AgentAccount → Person → Bool
reads (recipient p) agents q = person_eq q p
reads (agents_of none) agents q = false
reads (agents_of (some u)) agents q =
    party_eq q.kind agent && any (λ (a : AgentAccount). a.created_by == u && q.id == a.id) agents

owned_lem :
    (u id : ℕ) (agents : List AgentAccount)
    → any (λ k. id == k) (resolve_owned_agent_ids u agents)
      ≡ any (λ (a : AgentAccount). a.created_by == u && id == a.id) agents
unfolding resolve_owned_agent_ids
owned_lem u id [] = refl
owned_lem u id (a ∷ agents) = ground (arith, owned_lem u id agents)

abbrev total_unread : List Mail → ℕ
total_unread mails = count is_unread mails

already_read : (m : Mail) → m.row.is_read ≡ true → m ≡ as_read m
already_read m h = ap (λ b. record m { row = record m.row { is_read = b } }) h

-- Setting the flag of a row that is read already changes nothing.
set_flag :
    (b flag : Bool) (m : Mail)
    → m.row.is_read ≡ flag
    → (if b && not flag then as_read m else m) ≡ (if b then as_read m else m)
set_flag false flag m h = refl
set_flag true true m h = already_read m h
set_flag true false m h = refl

cons_eq : (m n : Mail) (xs ys : List Mail) → m ≡ n → xs ≡ ys → m ∷ xs ≡ n ∷ ys
cons_eq m n xs ys h k = cc

module _ (mine : Person → Bool) where
  abbrev to_mine : Mail → Bool
  to_mine m = mine m.row.recipient

  person_ends : (p q : Person) → person_eq p q ≡ true → mine p ≡ mine q
  person_ends p q h =
      let kinds : p.kind ≡ q.kind = ground (arith, party_eq_iff p.kind q.kind) in
      let ids : p.id ≡ q.id = ground arith in cc

  read_rows-unread :
      (q : Person) (mails : List Mail)
      → unread_count q (read_rows to_mine mails).1 ≡ (if mine q then 0 else unread_count q mails)
  unfolding read_rows unread_count
  read_rows-unread q [] = ground arith
  read_rows-unread q (m ∷ mails) = elim (Bool-cases (addressed q m)) [
    | inl e ↦ ground (arith, e, person_ends m.row.recipient q e, read_rows-unread q mails)
    | inr e ↦ ground (arith, e, read_rows-unread q mails)
  ]

  read_rows-total :
      (mails : List Mail)
      → total_unread mails ≡ (read_rows to_mine mails).0 + total_unread (read_rows to_mine mails).1
  unfolding read_rows
  read_rows-total [] = refl
  read_rows-total (m ∷ mails) = ground (arith, read_rows-total mails)

  -- A row of the reader as read, any other row as it is.
  read_rows-eq :
      (mails : List Mail)
      → (read_rows to_mine mails).1
        ≡ map
            (λ (m : Mail).
              if mine m.row.recipient
              then record m { row = record m.row { is_read = true } }
              else m)
            mails
  unfolding read_rows
  read_rows-eq [] = refl
  read_rows-eq (m ∷ mails) =
      cons_eq _ _ _ _ (set_flag (mine m.row.recipient) m.row.is_read m refl) (read_rows-eq mails)

-- Is it one of these agents?
abbrev one_of : List ℕ → Person → Bool
one_of ids q = party_eq q.kind agent && any (λ k. q.id == k) ids

read_owned-unread :
    (q : Person) (ids : List ℕ) (mails : List Mail)
    → unread_count q (read_owned ids mails).1 ≡ (if one_of ids q then 0 else unread_count q mails)
read_owned-unread q [] mails = ground arith
read_owned-unread q (a ∷ ids) mails = read_rows-unread (one_of (a ∷ ids)) q mails

read_owned-total :
    (ids : List ℕ) (mails : List Mail)
    → count is_unread mails ≡ (read_owned ids mails).0 + count is_unread (read_owned ids mails).1
read_owned-total [] mails = omega arith
read_owned-total (a ∷ ids) mails = read_rows-total (one_of (a ∷ ids)) mails

map-same : (mails : List Mail) → mails ≡ map (λ (m : Mail). m) mails
map-same [] = refl
map-same (m ∷ mails) = ap (λ rest. m ∷ rest) (map-same mails)

read_owned-eq :
    (ids : List ℕ) (mails : List Mail)
    → (read_owned ids mails).1
      ≡ map
          (λ (m : Mail).
            if one_of ids m.row.recipient
            then record m { row = record m.row { is_read = true } }
            else m)
          mails
read_owned-eq [] mails = none_read mails
  where
    none_read :
        (mails : List Mail)
        → mails
          ≡ map
              (λ (m : Mail).
                if one_of [] m.row.recipient
                then record m { row = record m.row { is_read = true } }
                else m)
              mails
    none_read [] = refl
    none_read (m ∷ mails) = elim (Bool-cases (one_of [] m.row.recipient)) [
      | inl e ↦ absurd (ground (arith, e))
      | inr e ↦ rw e (ap (λ rest. m ∷ rest) (none_read mails))
    ]
read_owned-eq (a ∷ ids) mails = read_rows-eq (one_of (a ∷ ids)) mails

abbrev pub answered : Answer ℕ → ℕ
answered (ok n) = n
answered (refused r) = 0

-- `mark_all_read` sets the flag of each row that the caller reads (a row of the recipient that it
-- names, or of an agent of the acting user), and leaves every other row, the order and the other
-- columns as they were; a call for agents without an acting user reads no row. Whoever's rows
-- the caller reads has no unread row afterwards, everyone else has as many as before, and the number
-- that it answers is the number by which the unread rows become fewer.
pub mark_all_read_exact :
    (reader : Reader) (agents : List AgentAccount) (mails : List Mail)
    → ((mark_all_read reader agents mails).1
        ≡ map
            (λ (m : Mail).
              if reads reader agents m.row.recipient
              then record m { row = record m.row { is_read = true } }
              else m)
            mails)
      × ((q : Person)
          → unread_count q (mark_all_read reader agents mails).1
            ≡ (if reads reader agents q then 0 else unread_count q mails))
      × (count is_unread mails
          ≡ answered (mark_all_read reader agents mails).0
            + count is_unread (mark_all_read reader agents mails).1)
unfolding mark_all_read
mark_all_read_exact (recipient p) agents mails = (
  read_rows-eq (λ r. person_eq r p) mails,
  λ q. read_rows-unread (λ r. person_eq r p) q mails,
  read_rows-total (λ r. person_eq r p) mails,
)
mark_all_read_exact (agents_of none) agents mails = (map-same mails, λ q. refl, omega arith)
mark_all_read_exact (agents_of (some u)) agents mails =
    let ids = resolve_owned_agent_ids u agents in
    let same : one_of ids ≡ reads (agents_of (some u)) agents =
      fun_ext (λ q. ap (λ b. party_eq q.kind agent && b) (owned_lem u q.id agents)) in
    (
      subst
          (λ (mine : Person → Bool).
            (read_owned ids mails).1
            ≡ map
                (λ (m : Mail).
                  if mine m.row.recipient
                  then record m { row = record m.row { is_read = true } }
                  else m)
                mails)
          same (read_owned-eq ids mails),
      λ q.
          read_owned-unread q ids mails
          ∙ ap (λ (mine : Person → Bool). if mine q then 0 else unread_count q mails) same,
      read_owned-total ids mails,
    )

-- What `mark_read` of a row does: it is refused for a reason and changes nothing, or the row is the reader's, is answered
-- as read and stands so in the table, in which nothing else has changed.
pub data MarkOutcome (id : ℕ) (reader : Reader) (agents : List AgentAccount) (mails : List Mail)
    : Type 0 where
  no_row :
      lookup mail_key id mails ≡ none
      → mark_read id reader agents mails ≡ (refused missing, mails)
      → MarkOutcome id reader agents mails
  not_readers :
      (m : Mail) (r : Refusal)
      → lookup mail_key id mails ≡ some m
      → reads reader agents m.row.recipient ≡ false
      → refusal reader agents m ≡ some r
      → mark_read id reader agents mails ≡ (refused r, mails)
      → MarkOutcome id reader agents mails
  marked :
      (m : Mail)
      → lookup mail_key id mails ≡ some m
      → reads reader agents m.row.recipient ≡ true
      → (mark_read id reader agents mails).0 ≡ ok (as_read m)
      → ((k : ℕ)
          → lookup mail_key k (mark_read id reader agents mails).1
            ≡ (if k == id then some (as_read m) else lookup mail_key k mails))
      → MarkOutcome id reader agents mails

refusal-reads :
    (reader : Reader) (agents : List AgentAccount) (m : Mail)
    → refusal reader agents m ≡ none
    → reads reader agents m.row.recipient ≡ true
unfolding refusal
refusal-reads (recipient p) agents m h = ground (arith, h)
refusal-reads (agents_of none) agents m h = ground (arith, h)
refusal-reads (agents_of (some u)) agents m h =
    ground (arith, h, owned_lem u m.row.recipient.id agents)

refusal-not_reads :
    (reader : Reader) (agents : List AgentAccount) (m : Mail) (r : Refusal)
    → refusal reader agents m ≡ some r
    → reads reader agents m.row.recipient ≡ false
unfolding refusal
refusal-not_reads (recipient p) agents m r h = ground (arith, h)
refusal-not_reads (agents_of none) agents m r h = refl
refusal-not_reads (agents_of (some u)) agents m r h =
    ground (arith, h, owned_lem u m.row.recipient.id agents)

module _ (m : Mail) (mails : List Mail) (found : lookup mail_key m.id mails ≡ some m) where
  -- The answer is the row as read, the table finds it so, and no other row changes.
  abbrev IsSettled : Answer Mail × List Mail → Type 0
  IsSettled (answer, rows) =
      (answer ≡ ok (as_read m))
      × ((k : ℕ)
          → lookup mail_key k rows
            ≡ (if k == m.id then some (as_read m) else lookup mail_key k mails))

  same_rows :
      m ≡ as_read m
      → (k : ℕ)
      → lookup mail_key k mails ≡ (if k == m.id then some (as_read m) else lookup mail_key k mails)
  same_rows h k = elim (Bool-cases (k == m.id)) [
    | inl same ↦
        let at : k ≡ m.id = ground (arith, same) in
        rw same (ap (λ j. lookup mail_key j mails) at ∙ found ∙ ap some h)
    | inr apart ↦ rw apart refl
  ]

  put_row :
      (k : ℕ)
      → lookup mail_key k (put mail_key (as_read m) mails)
        ≡ (if k == m.id then some (as_read m) else lookup mail_key k mails)
  put_row k = elim (Bool-cases (k == m.id)) [
    | inl same ↦
        let at : k ≡ m.id = ground (arith, same) in
        ground (
          arith,
          lookup-put mail_key k (as_read m) mails,
          ap (λ j. lookup mail_key j mails) at,
          found,
        )
    | inr apart ↦ ground (arith, lookup-put mail_key k (as_read m) mails, apart)
  ]

  by_flag :
      (b : Bool)
      → m.row.is_read ≡ b
      → IsSettled (if b then (ok m, mails) else (ok (as_read m), put mail_key (as_read m) mails))
  by_flag true h = (ap ok (already_read m h), same_rows (already_read m h))
  by_flag false h = (refl, put_row)

  settled : IsSettled (settle none m mails)
  settled = by_flag m.row.is_read refl

-- Each call of `mark_read` is one of three cases: there is no row with the id, and it is refused
-- as missing; the row is not one that the caller reads, and it is refused with the reason of the
-- ownership check; or the row is the caller's and is answered as read, the table holds it so, and every other
-- row is as it was. A refused call changes nothing.
pub mark_read_exact :
    (id : ℕ) (reader : Reader) (agents : List AgentAccount) (mails : List Mail)
    → MarkOutcome id reader agents mails
unfolding mark_read
mark_read_exact id reader agents mails = elim (Option-cases (lookup mail_key id mails)) [
  | inl e ↦ no_row e (ap (check_row reader agents mails) e)
  | inr (m, e) ↦ elim (Option-cases (refusal reader agents m)) [
    | inl mine ↦
        let done : check_row reader agents mails (lookup mail_key id mails) ≡ settle none m mails =
          ap (check_row reader agents mails) e ∙ ap (λ r. settle r m mails) mine in
        let at : m.id ≡ id = lookup_key mail_key id mails e in
        let (answer, rows) = settled m mails (ap (λ k. lookup mail_key k mails) at ∙ e) in
        marked m e (refusal-reads reader agents m mine) (ap (λ p. p.0) done ∙ answer) (λ k.
          ap (λ p. lookup mail_key k p.1) done
          ∙ rows k
          ∙ ap (λ j. if k == j then some (as_read m) else lookup mail_key k mails) at)
    | inr (r, not_mine) ↦
        not_readers m r e (refusal-not_reads reader agents m r not_mine) not_mine
          (ap (check_row reader agents mails) e ∙ ap (λ r. settle r m mails) not_mine)
  ]
]
