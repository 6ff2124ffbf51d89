-- ===== src/Examples/Scans.antt =====
-- A scan over one ticket.
use problem_bulletin.Prelude.{
  ℕ, ◌+◌, ◌==◌, ◌&&◌, any, if◌then◌else◌, ◌≡◌, refl, true, false, some, [], ◌∷◌, arith,
}
use problem_bulletin.Prelude.Text.{Text}
use problem_bulletin.Domain.{Ticket, Person}
use problem_bulletin.DueSoon.{Written, hours, scan_body}
use problem_bulletin.DueSoon.Once.{AtMostOnce, Goes, scan_body-AtMostOnce}
use problem_bulletin.DueSoon.Concerned.{is_upcoming, is_concerned}
use problem_bulletin.DueSoon.Told.{told, scan_body_exact}
use problem_bulletin.Examples.Rows.{the_epic}

abbrev due : Ticket
due = record the_epic { due_date = some 2000; assignee_id = some 7 }

nothing-AtMostOnce : AtMostOnce 1000 []
nothing-AtMostOnce p ticket = omega arith

abbrev show : ℕ → Text
show n = []

scan_body-AtMostOnce_example :
    Goes show (λ t p. true) 1500 (scan_body show (λ t p. true) 1500 24 (due ∷ []) [] [])
scan_body-AtMostOnce_example =
    scan_body-AtMostOnce show (λ t p. true) 1000 1500 24 (due ∷ []) [] [] (omega arith)
      nothing-AtMostOnce

scan_body_exact_example :
    (w : Written) × (scan_body show (λ t p. false) 1500 24 (due ∷ []) [] [] ≡ some w)
    × ((q : Person) (k : ℕ)
        → told show (λ t p. false) 1500 q k w.1 ≡ (
            if any
              (λ (t : Ticket).
                t.id == k && is_upcoming 1500 (1500 + hours 24) t && is_concerned [] q t)
              (due ∷ [])
            then 1
            else told show (λ t p. false) 1500 q k []))
scan_body_exact_example =
    scan_body_exact show (λ t p. false) 1000 1500 24 (due ∷ []) [] [] (λ t p. refl) (omega arith)
      nothing-AtMostOnce
