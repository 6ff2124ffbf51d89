-- ===== src/DueSoon/Once.antt =====
-- Nobody is told twice of a ticket within a day.
use problem_bulletin.Prelude.{
  ℕ, zero, suc, ◌+◌, ◌-◌, ◌≤◌, ◌≡◌, ◌==◌, refl, sym, ap, ◌∙◌, inl, inr, Bool, true, false, ◌&&◌,
  Option, some, List, [], ◌∷◌, filter, count, leb, arith, if◌then◌else◌, Bool-cases,
}
use problem_bulletin.Prelude.Text.{Text}
use problem_bulletin.Domain.{
  Ticket, TicketWatcher, TicketNotification, Person, person_eq, party_eq_iff,
}
use problem_bulletin.DueSoon.{
  dedup_hours, hours, is_due_soon, candidates, unique, tells, Written, due_row, insert_row,
  by_existing, cutoff_at, tell, then_on, tell_each, scan_tickets, scan_body,
}

-- At most one row of the last 24 hours tells a person of a ticket.
abbrev pub AtMostOnce : ℕ → List TicketNotification → Type 0
AtMostOnce now rows =
    (p : Person) (ticket : ℕ) → count (tells p ticket (now - hours dedup_hours)) rows ≤ 1

count-tells-le :
    (p : Person) (ticket early late : ℕ) (rows : List TicketNotification)
    → early ≤ late
    → count (tells p ticket late) rows ≤ count (tells p ticket early) rows
count-tells-le p ticket early late [] h = omega arith
count-tells-le p ticket early late (n ∷ rows) h = elim (Bool-cases (leb late n.created_at)) [
  | inl e ↦
      let f : leb early n.created_at ≡ true = ground (arith, e) in
      rw (e, f) (omega (arith, count-tells-le p ticket early late rows h))
  | inr e ↦ ground (arith, e, count-tells-le p ticket early late rows h)
]

pub later-AtMostOnce :
    (now after : ℕ) (rows : List TicketNotification)
    → now ≤ after
    → AtMostOnce now rows
    → AtMostOnce after rows
later-AtMostOnce now after rows h once p ticket =
    let cutoffs : now - hours dedup_hours ≤ after - hours dedup_hours = omega arith in
    omega (
      arith,
      count-tells-le p ticket (now - hours dedup_hours) (after - hours dedup_hours) rows cutoffs,
      once p ticket,
    )

pub person_eq-eq : (p q : Person) → person_eq p q ≡ true → p ≡ q
person_eq-eq p q h =
    let kinds : p.kind ≡ q.kind = ground (arith, party_eq_iff p.kind q.kind) in
    let ids : p.id ≡ q.id = ground arith in cc

one_more : (b : Bool) (n : ℕ) → n ≡ 0 → (if b then 1 else 0) + n ≤ 1
one_more b n h = ground arith

module _ (show_time : ℕ → Text) (fails : Ticket → Person → Bool) where
  -- The new row tells nobody else and of nothing else.
  tells-due_row :
      (now cutoff : ℕ) (t : Ticket) (p q : Person) (ticket : ℕ)
      → person_eq p q && t.id == ticket ≡ false
      → tells q ticket cutoff (due_row show_time fails now t p) ≡ false
  tells-due_row now cutoff t p q ticket h = ground (arith, h)

  count-due_row :
      (now cutoff : ℕ) (t : Ticket) (p q : Person) (ticket : ℕ) (rows : List TicketNotification)
      → count (tells p t.id cutoff) rows ≡ 0
      → count (tells q ticket cutoff) rows ≤ 1
      → count (tells q ticket cutoff) (due_row show_time fails now t p ∷ rows) ≤ 1
  count-due_row now cutoff t p q ticket rows empty once =
      elim (Bool-cases (person_eq p q && t.id == ticket)) [
        | inl same ↦
            let people : p ≡ q = person_eq-eq p q (ground (arith, same)) in
            let tickets : t.id ≡ ticket = ground (arith, same) in
            let untold : count (tells q ticket cutoff) rows ≡ 0 =
              ap (λ (r : Person). count (tells r ticket cutoff) rows) (sym people)
              ∙ ap (λ k. count (tells p k cutoff) rows) (sym tickets)
              ∙ empty in
            one_more (tells q ticket cutoff (due_row show_time fails now t p))
              (count (tells q ticket cutoff) rows) untold
        | inr apart ↦ rw (tells-due_row now cutoff t p q ticket apart) (omega (arith, once))
      ]

  -- The new row is the first that tells its person of its ticket.
  insert-AtMostOnce :
      (now : ℕ) (t : Ticket) (p : Person) (n : ℕ) (rows : List TicketNotification)
      → count (tells p t.id (cutoff_at show_time fails now)) rows ≡ 0
      → AtMostOnce now rows
      → AtMostOnce now (insert_row show_time fails now t p (n, rows)).1
  insert-AtMostOnce now t p n rows empty once q ticket = elim (Bool-cases (fails t p)) [
    | inl e ↦ rw e (once q ticket)
    | inr e ↦
        rw e (
          count-due_row now (cutoff_at show_time fails now) t p q ticket rows empty (once q ticket))
  ]

  -- A call goes through and keeps the rows so.
  abbrev pub Goes : ℕ → Option Written → Type 0
  Goes now r = (w : Written) × (r ≡ some w) × AtMostOnce now w.1

  tell-Goes :
      (now : ℕ) (t : Ticket) (p : Person) (w : Written)
      → AtMostOnce now w.1
      → Goes now (tell show_time fails now t p w)
  unfolding tell
  tell-Goes now t p (n, rows) once =
      by_number (count (tells p t.id (cutoff_at show_time fails now)) rows) refl (once p t.id)
    where
      by_number :
          (k : ℕ)
          → count (tells p t.id (cutoff_at show_time fails now)) rows ≡ k
          → count (tells p t.id (cutoff_at show_time fails now)) rows ≤ 1
          → Goes now (by_existing show_time fails k now t p (n, rows))
      by_number zero e h = (
        insert_row show_time fails now t p (n, rows),
        refl,
        insert-AtMostOnce now t p n rows e once,
      )
      by_number (suc zero) e h = ((n, rows), refl, once)
      by_number (suc (suc k)) e h = absurd (omega arith)

  tell_each-Goes :
      (now : ℕ) (t : Ticket) (people : List Person) (w : Written)
      → AtMostOnce now w.1
      → Goes now (tell_each show_time fails now t people w)
  unfolding tell_each
  tell_each-Goes now t [] w once = (w, refl, once)
  tell_each-Goes now t (p ∷ people) w once =
      let (v, e, h) = tell-Goes now t p w once in
      let (u, f, k) = tell_each-Goes now t people v h in
      (u, ap (then_on show_time fails (tell_each show_time fails now t people)) e ∙ f, k)

  scan_tickets-Goes :
      (now : ℕ) (tickets : List Ticket) (watchers : List TicketWatcher) (w : Written)
      → AtMostOnce now w.1
      → Goes now (scan_tickets show_time fails now tickets watchers w)
  unfolding scan_tickets
  scan_tickets-Goes now [] watchers w once = (w, refl, once)
  scan_tickets-Goes now (t ∷ tickets) watchers w once =
      let (v, e, h) = tell_each-Goes now t (unique [] (candidates t watchers)) w once in
      let (u, f, k) = scan_tickets-Goes now tickets watchers v h in
      (u, ap (then_on show_time fails (scan_tickets show_time fails now tickets watchers)) e ∙ f, k)

  -- Where at most one row of the last 24 hours tells each person of each ticket, as at the time of an earlier scan, a
  -- scan now or later raises no exception (no query finds two rows) and leaves the rows so, whichever inserts fail.
  pub scan_body-AtMostOnce :
      (before now lookahead_hours : ℕ) (tickets : List Ticket) (watchers : List TicketWatcher)
      (rows : List TicketNotification)
      → before ≤ now
      → AtMostOnce before rows
      → Goes now (scan_body show_time fails now lookahead_hours tickets watchers rows)
  unfolding scan_body
  scan_body-AtMostOnce before now lookahead_hours tickets watchers rows h once =
      scan_tickets-Goes now (filter (is_due_soon now lookahead_hours) tickets) watchers (0, rows)
        (later-AtMostOnce before now rows h once)
