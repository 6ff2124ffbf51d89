-- ===== src/Notifications/Fanout/Newest.antt =====
-- The row that a state change may be taken into.
use problem_bulletin.Prelude.{
  ◌≡◌, ◌⊎◌, ◌==◌, refl, ap, inl, inr, Bool, true, false, ◌&&◌, Option, none, some, [], ◌∷◌, any,
  leb, arith, Bool-cases,
}
use problem_bulletin.Domain.{TicketNotification}
use problem_bulletin.Notifications.Coalesce.{newest}
use problem_bulletin.Notifications.Fanout.{Inbox}

newest-here :
    (test : TicketNotification → Bool) (r n : TicketNotification) (rows : Inbox)
    → test r ≡ true
    → newest test (r ∷ rows) ≡ some n
    → (r ≡ n) ⊎ (newest test rows ≡ some n)
unfolding newest
newest-here test r n rows y h = by_rest (newest test rows) refl
  where
    by_rest :
        (rest : Option TicketNotification)
        → newest test rows ≡ rest
        → (r ≡ n) ⊎ (newest test rows ≡ some n)
    by_rest none e = ground (arith, y, e, h)
    by_rest (some m) e = elim (Bool-cases (leb m.created_at r.created_at)) [
      | inl older ↦ ground (arith, y, e, h, older)
      | inr younger ↦ ground (arith, y, e, h, younger)
    ]

newest-there :
    (test : TicketNotification → Bool) (r n : TicketNotification) (rows : Inbox)
    → test r ≡ false
    → newest test (r ∷ rows) ≡ some n
    → newest test rows ≡ some n
unfolding newest
newest-there test r n rows x h = ground (arith, x, h)

newest-empty :
    (test : TicketNotification → Bool) (n : TicketNotification) → newest test [] ≡ some n → ⊥
unfolding newest
newest-empty test n h = absurd (ground (arith, h))

-- The newest row is a row that passes the test, so one with its date does.
pub newest-any :
    (test : TicketNotification → Bool) (rows : Inbox) (n : TicketNotification)
    → newest test rows ≡ some n
    → any (λ (r : TicketNotification). test r && r.created_at == n.created_at) rows ≡ true
newest-any test [] n h = absurd (newest-empty test n h)
newest-any test (r ∷ rows) n h = elim (Bool-cases (test r)) [
  | inr x ↦ ground (arith, x, newest-any test rows n (newest-there test r n rows x h))
  | inl y ↦ elim (newest-here test r n rows y h) [
    | inl same ↦ ground (arith, y, ap (λ (m : TicketNotification). m.created_at) same)
    | inr later ↦ ground (arith, y, newest-any test rows n later)
  ]
]
