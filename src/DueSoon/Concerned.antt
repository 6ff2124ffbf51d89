-- ===== src/DueSoon/Concerned.antt =====
-- Whom a ticket concerns, written down apart from the code, and which tickets are due soon.
use problem_bulletin.Prelude.{
  ℕ, ◌≡◌, refl, sym, ap, ◌∙◌, inl, inr, Bool, true, false, none, some, List, [], ◌∷◌, ◌++◌, ◌+◌,
  ◌==◌, ◌&&◌, ◌||◌, map, filter, any, ltb, arith, Bool-cases,
}
use problem_bulletin.Domain.{
  Ticket, TicketWatcher, Person, person_eq, party_eq, TicketStatus, done, cancelled,
}
use problem_bulletin.DueSoon.{pair, hours, is_due_soon, candidates, unique}
use problem_bulletin.DueSoon.Once.{person_eq-eq}

abbrev pub one_of : Person → List Person → Bool
one_of p people = any (person_eq p) people

pub one_of-unique :
    (seen people : List Person) (p : Person)
    → one_of p people ≡ true
    → one_of p seen ≡ false
    → one_of p (unique seen people) ≡ true
unfolding unique
one_of-unique seen [] p h k = h
one_of-unique seen (q ∷ people) p h k = elim (Bool-cases (person_eq p q)) [
  | inl e ↦
      let same : p ≡ q = person_eq-eq p q e in
      let new : any (person_eq q) seen ≡ false =
        ap (λ (r : Person). any (person_eq r) seen) (sym same) ∙ k in
      rw new (ground (arith, e))
  | inr e ↦
      let on : one_of p people ≡ true = ground (arith, h, e) in
      elim (Bool-cases (any (person_eq q) seen)) [
        | inl old ↦ rw old (one_of-unique seen people p on k)
        | inr new ↦
            let still : one_of p (q ∷ seen) ≡ false = ground (arith, e, k) in
            rw new (ground (arith, e, one_of-unique (q ∷ seen) people p on still))
      ]
]

pub one_of-known :
    (seen people : List Person) (p : Person)
    → one_of p (unique seen people) ≡ true
    → one_of p people ≡ true
unfolding unique
one_of-known seen [] p h = h
one_of-known seen (q ∷ people) p h = elim (Bool-cases (any (person_eq q) seen)) [
  | inl old ↦
      let on : one_of p (unique seen people) ≡ true = ground (arith, h, old) in
      ground (arith, one_of-known seen people p on)
  | inr new ↦ elim (Bool-cases (person_eq p q)) [
    | inl e ↦ ground (arith, e)
    | inr e ↦
        let on : one_of p (unique (q ∷ seen) people) ≡ true = ground (arith, h, new, e) in
        ground (arith, one_of-known (q ∷ seen) people p on)
  ]
]

pub one_of-unique-eq :
    (people : List Person) (p : Person) → one_of p (unique [] people) ≡ one_of p people
one_of-unique-eq people p = elim (Bool-cases (one_of p people)) [
  | inl e ↦ one_of-unique [] people p e refl ∙ sym e
  | inr e ↦ elim (Bool-cases (one_of p (unique [] people))) [
    | inl d ↦ d ∙ sym (one_of-known [] people p d)
    | inr d ↦ d ∙ sym e
  ]
]

-- The person is the ticket's assignee.
abbrev pub is_assignee : Person → Ticket → Bool
is_assignee q t = elim t.assignee_type [
  | none ↦ false
  | some kind ↦ elim t.assignee_id [ none ↦ false | some id ↦ party_eq q.kind kind && q.id == id ]
]

-- The person has to do with the ticket: as assignee, as reporter, or as a watcher.
abbrev pub is_concerned : List TicketWatcher → Person → Ticket → Bool
is_concerned watchers q t =
    is_assignee q t
    || party_eq q.kind t.reporter_type && q.id == t.reporter_id
    || any (λ (w : TicketWatcher). w.ticket_id == t.id && person_eq q w.watcher) watchers

-- The ticket is open and its date lies between two times.
abbrev pub is_upcoming : ℕ → ℕ → Ticket → Bool
is_upcoming now end t = elim t.due_date [
  | none ↦ false
  | some d ↦ ltb now d && ltb d end && is_open t.status
]
  where
    is_open : TicketStatus → Bool
    is_open done = false
    is_open cancelled = false
    is_open _ = true

pub one_of-append :
    (q : Person) (xs ys : List Person) → one_of q (xs ++ ys) ≡ (one_of q xs || one_of q ys)
one_of-append q [] ys = refl
one_of-append q (x ∷ xs) ys = ground (arith, one_of-append q xs ys)

pub one_of-watchers :
    (q : Person) (id : ℕ) (watchers : List TicketWatcher)
    → one_of q (
        map
          (λ (w : TicketWatcher). w.watcher)
          (filter (λ (w : TicketWatcher). w.ticket_id == id) watchers))
      ≡ any (λ (w : TicketWatcher). w.ticket_id == id && person_eq q w.watcher) watchers
one_of-watchers q id [] = refl
one_of-watchers q id (w ∷ watchers) = ground (arith, one_of-watchers q id watchers)

pub one_of-candidates :
    (q : Person) (t : Ticket) (watchers : List TicketWatcher)
    → one_of q (candidates t watchers) ≡ is_concerned watchers q t
unfolding candidates
one_of-candidates q t watchers =
    ground (arith, one_of-append q (pair t) _, one_of-watchers q t.id watchers)

pub is_due_soon-upcoming :
    (now lookahead_hours : ℕ) (t : Ticket)
    → is_due_soon now lookahead_hours t ≡ is_upcoming now (now + hours lookahead_hours) t
is_due_soon-upcoming now lookahead_hours t = ground arith

pub any-filter {ℓ} :
    {A : Type ℓ} (test keep : A → Bool) (xs : List A)
    → any test (filter keep xs) ≡ any (λ x. keep x && test x) xs
any-filter test keep [] = refl
any-filter test keep (x ∷ xs) = ground (arith, any-filter test keep xs)

pub any-eq {ℓ} :
    {A : Type ℓ} (f g : A → Bool) (xs : List A) → ((x : A) → f x ≡ g x) → any f xs ≡ any g xs
any-eq f g [] h = refl
any-eq f g (x ∷ xs) h = ground (arith, h x, any-eq f g xs h)
