-- ===== src/DueSoon/Told.antt =====
-- Everyone concerned is told, and nobody else.
use problem_bulletin.Prelude.{
  ℕ, zero, suc, ◌-◌, ◌≤◌, ◌≡◌, refl, sym, ap, ◌∙◌, inl, inr, Bool, true, false, Option, none, some,
  List, [], ◌∷◌, ◌+◌, ◌==◌, ◌&&◌, filter, any, count, leb, arith, Bool-cases, if◌then◌else◌,
}
use problem_bulletin.Prelude.Text.{Text}
use problem_bulletin.Domain.{
  Ticket, TicketWatcher, TicketNotification, Person, person_eq, party_eq_iff,
}
use problem_bulletin.DueSoon.{
  dedup_hours, hours, is_due_soon, candidates, unique, tells, Written, due_row, insert_row,
  by_existing, tell, then_on, tell_each, scan_tickets, scan_body,
}
use problem_bulletin.DueSoon.Once.{AtMostOnce, scan_body-AtMostOnce, person_eq-eq}
use problem_bulletin.DueSoon.Concerned.{
  one_of, one_of-unique-eq, is_concerned, is_upcoming, one_of-candidates, is_due_soon-upcoming,
  any-filter, any-eq,
}

some_inj : (w v : Written) → some w ≡ some v → w ≡ v
some_inj w v h = cc

module _ (show_time : ℕ → Text) (fails : Ticket → Person → Bool) where
  -- How many rows of the last 24 hours tell a person of a ticket.
  abbrev pub told : ℕ → Person → ℕ → List TicketNotification → ℕ
  told now q k rows = count (tells q k (now - hours dedup_hours)) rows

  tells_new :
      (now : ℕ) (t : Ticket) (p q : Person) (k : ℕ)
      → tells q k (now - hours dedup_hours) (due_row show_time fails now t p)
        ≡ (t.id == k && person_eq q p)
  tells_new now t p q k =
      let recent : leb (now - hours dedup_hours) now ≡ true = ground arith in
      ground (arith, party_eq_iff p.kind q.kind, party_eq_iff q.kind p.kind, recent)

  -- What telling one person does to the counts, where it goes through.
  tell_lem :
      (now : ℕ) (t : Ticket) (p : Person) (w v : Written)
      → fails t p ≡ false
      → tell show_time fails now t p w ≡ some v
      → (q : Person) (k : ℕ)
      → told now q k v.1 ≡ (if t.id == k && person_eq q p then 1 else told now q k w.1)
  unfolding tell
  tell_lem now t p (n, rows) v fine h q k = by_number (told now p t.id rows) refl h
    where
      at_match : (t.id == k && person_eq q p) ≡ true → told now q k rows ≡ told now p t.id rows
      at_match e =
          let who : q ≡ p = person_eq-eq q p (ground (arith, e)) in
          let what : k ≡ t.id = ground (arith, e) in
          ap (λ r. told now r k rows) who ∙ ap (λ j. told now p j rows) what

      by_number :
          (m : ℕ)
          → told now p t.id rows ≡ m
          → by_existing show_time fails m now t p (n, rows) ≡ some v
          → told now q k v.1 ≡ (if t.id == k && person_eq q p then 1 else told now q k rows)
      by_number zero e h =
          let w : Written = insert_row show_time fails now t p (n, rows) in
          let new : told now q k w.1
              ≡ (if t.id == k && person_eq q p then 1 else 0) + told now q k rows =
            rw fine (ground (arith, tells_new now t p q k)) in
          let same = ap (λ (u : Written). told now q k u.1) (some_inj w v h) in
          elim (Bool-cases (t.id == k && person_eq q p)) [
            | inl y ↦ ground (arith, y, new, same, e, at_match y)
            | inr x ↦ ground (arith, x, new, same)
          ]
      by_number (suc zero) e h =
          let same = ap (λ (u : Written). told now q k u.1) (some_inj (n, rows) v h) in
          elim (Bool-cases (t.id == k && person_eq q p)) [
            | inl y ↦ ground (arith, y, same, e, at_match y)
            | inr x ↦ ground (arith, x, same)
          ]
      by_number (suc (suc m)) e h = absurd cc

  -- What goes through began with something that did.
  then_on-some :
      (f : Written → Option Written) (r : Option Written) (v : Written)
      → then_on show_time fails f r ≡ some v
      → (u : Written) × (r ≡ some u) × (f u ≡ some v)
  then_on-some f none v h = absurd cc
  then_on-some f (some u) v h = (u, refl, h)

  tell_each_lem :
      (now : ℕ) (t : Ticket) (people : List Person) (w v : Written)
      → ((p : Person) → fails t p ≡ false)
      → tell_each show_time fails now t people w ≡ some v
      → (q : Person) (k : ℕ)
      → told now q k v.1 ≡ (if t.id == k && one_of q people then 1 else told now q k w.1)
  unfolding tell_each
  tell_each_lem now t [] w v fine h q k =
      ground (arith, ap (λ (u : Written). told now q k u.1) (some_inj w v h))
  tell_each_lem now t (p ∷ people) w v fine h q k =
      let (u, e, f) =
        then_on-some (tell_each show_time fails now t people) (tell show_time fails now t p w) v
          h in
      ground (arith, tell_lem now t p w u (fine p) e q k, tell_each_lem now t people u v fine f q k)

  scan_tickets_lem :
      (now : ℕ) (tickets : List Ticket) (watchers : List TicketWatcher) (w v : Written)
      → ((t : Ticket) (p : Person) → fails t p ≡ false)
      → scan_tickets show_time fails now tickets watchers w ≡ some v
      → (q : Person) (k : ℕ)
      → told now q k v.1 ≡ (
          if any (λ (t : Ticket). t.id == k && is_concerned watchers q t) tickets
          then 1
          else told now q k w.1)
  unfolding scan_tickets
  scan_tickets_lem now [] watchers w v fine h q k =
      ap (λ (u : Written). told now q k u.1) (sym (some_inj w v h))
  scan_tickets_lem now (t ∷ tickets) watchers w v fine h q k =
      let people = unique [] (candidates t watchers) in
      let (u, e, f) =
        then_on-some (scan_tickets show_time fails now tickets watchers)
          (tell_each show_time fails now t people w) v h in
      ground (
        arith,
        tell_each_lem now t people w u (fine t) e q k,
        one_of-unique-eq (candidates t watchers) q,
        one_of-candidates q t watchers,
        scan_tickets_lem now tickets watchers u v fine f q k,
      )

  -- A scan none of whose inserts fails goes through. After it exactly one row of the last 24 hours
  -- tells a person of a ticket that is neither done nor cancelled and due after now and before the end of the
  -- lookahead, if the person is its assignee, its reporter or one of its watchers; and of every other
  -- person and ticket there are as many rows as before. It takes that at most one row of the last
  -- 24 hours told each person of each ticket at an earlier time.
  pub scan_body_exact :
      (before now lookahead_hours : ℕ) (tickets : List Ticket) (watchers : List TicketWatcher)
      (rows : List TicketNotification)
      → ((t : Ticket) (p : Person) → fails t p ≡ false)
      → before ≤ now
      → AtMostOnce before rows
      → (w : Written) × (scan_body show_time fails now lookahead_hours tickets watchers rows
          ≡ some w)
        × ((q : Person) (k : ℕ)
            → told now q k w.1 ≡ (
                if any
                  (λ (t : Ticket).
                    t.id == k
                    && is_upcoming now (now + hours lookahead_hours) t
                    && is_concerned watchers q t)
                  tickets
                then 1
                else told now q k rows))
  unfolding scan_body
  scan_body_exact before now lookahead_hours tickets watchers rows fine h once =
      let (w, e, kept) =
        scan_body-AtMostOnce show_time fails before now lookahead_hours tickets watchers rows h
          once in
      let keep = is_due_soon now lookahead_hours in
      (
        w,
        e,
        λ q k.
            let test : Ticket → Bool = λ (t : Ticket). t.id == k && is_concerned watchers q t in
            let wanted : Ticket → Bool = λ (t : Ticket).
              t.id == k
              && is_upcoming now (now + hours lookahead_hours) t
              && is_concerned watchers q t in
            let same : any test (filter keep tickets) ≡ any wanted tickets =
              any-filter test keep tickets
              ∙ any-eq (λ t. keep t && test t) wanted tickets
                  (λ t. ground (arith, is_due_soon-upcoming now lookahead_hours t)) in
            scan_tickets_lem now (filter keep tickets) watchers (0, rows) w fine e q k
            ∙ ap (λ b. if b then 1 else told now q k rows) same,
      )
