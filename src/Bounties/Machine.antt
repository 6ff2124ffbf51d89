-- ===== src/Bounties/Machine.antt =====
-- The bounty transitions as a state machine with permissions.
use mathlib.Core.Path.{subst}
use problem_bulletin.Prelude.{
  ℕ, ◌≡◌, ◌⊎◌, refl, inl, inr, sym, true, false, Option, none, some, [], arith, Option-cases,
  Bool-cases,
}
use problem_bulletin.Prelude.Table.{lookup}
use problem_bulletin.Prelude.Text.{Text}
use problem_bulletin.Domain.{Person}
use problem_bulletin.Bounties.{
  BountyStatus, Bounty, bounty_key, Ledger, Outcome, refused, bounty_not_found, create_bounty,
  Transition, on_row, transition, is_user,
}
use problem_bulletin.Bounties.Lifecycle.{
  IsSound, AllSound, put-AllSound, cons-AllSound, next_status, may, is_returned, row_refused, Moves,
  row-Moves,
}

transition_found :
    (kind : Transition) (actor : Person) (now id : ℕ) (l : Ledger) (b : Bounty)
    → lookup bounty_key id l.bounties ≡ some b
    → transition kind actor now id l ≡ on_row kind actor now b l
unfolding transition
transition_found kind actor now id l b found = ground (arith, found)

-- A transition of a bounty that the ledger has goes through exactly if the state machine has the
-- step and the actor may take it; then the row moves as the step says. Else the call is refused
-- and the ledger is as before.
pub transition_exact :
    (kind : Transition) (actor : Person) (now id : ℕ) (l : Ledger) (b : Bounty)
    → lookup bounty_key id l.bounties ≡ some b
    → ((s : BountyStatus) × (next_status kind b.status ≡ some s)
        × (may kind actor b ≡ true)
        × Moves s b actor l (transition kind actor now id l))
      ⊎ (((next_status kind b.status ≡ none) ⊎ (may kind actor b ≡ false))
          × (is_returned (transition kind actor now id l).0 ≡ false)
          × ((transition kind actor now id l).1 ≡ l))
transition_exact kind actor now id l b found =
    rw (transition_found kind actor now id l b found)
      (elim (Option-cases (next_status kind b.status)) [
        | inl e ↦
            let (out, unchanged) = row_refused kind actor now b l (inl e) in
            inr (inl e, out, unchanged)
        | inr (s, e) ↦ elim (Bool-cases (may kind actor b)) [
          | inl m ↦ inl (s, e, m, row-Moves kind actor now b l s e m)
          | inr m ↦
              let (out, unchanged) = row_refused kind actor now b l (inr m) in
              inr (inr m, out, unchanged)
        ]
      ])

transition_missing :
    (kind : Transition) (actor : Person) (now id : ℕ) (l : Ledger)
    → lookup bounty_key id l.bounties ≡ none
    → transition kind actor now id l ≡ (refused bounty_not_found, l)
unfolding transition
transition_missing kind actor now id l found = ground (arith, found)

sound_after :
    (l : Ledger) (s : BountyStatus) (b : Bounty) (actor : Person) (r : Outcome × Ledger)
    → Moves s b actor l r
    → IsSound b
    → AllSound l
    → AllSound r.1
sound_after l s b actor r v sound h k c found =
    put-AllSound l v.row (v.sound sound) h k c
      (subst (λ rows. lookup bounty_key k rows ≡ some c) v.stored found)

transition-AllSound :
    (kind : Transition) (actor : Person) (now id : ℕ) (l : Ledger)
    → AllSound l
    → AllSound (transition kind actor now id l).1
transition-AllSound kind actor now id l h = elim (Option-cases (lookup bounty_key id l.bounties)) [
  | inl e ↦
      subst (λ (r : Outcome × Ledger). AllSound r.1)
        (sym (transition_missing kind actor now id l e)) h
  | inr (b, e) ↦ elim (transition_exact kind actor now id l b e) [
    | inl (s, step, allowed, v) ↦ sound_after l s b actor _ v (h id b e) h
    | inr (why, out, same) ↦ subst AllSound (sym same) h
  ]
]

create-AllSound :
    (actor : Person) (id : ℕ) (title description : Text) (points : ℕ) (ticket problem : Option ℕ)
    (l : Ledger)
    → AllSound l
    → AllSound (create_bounty actor id title description points ticket problem l).1
unfolding create_bounty
create-AllSound actor id title description points ticket problem l h =
    elim (Bool-cases (is_user actor.kind)) [
      | inl u ↦ rw u (
          cons-AllSound l _
            (record {
              free = λ f. (refl, refl, refl);
              held = λ f. ground arith;
              paid = λ f. ground arith;
              unpaid = λ f. refl;
            })
            h)
      | inr u ↦ rw u h
    ]

-- What any calls on an empty ledger lead to.
pub data Reaches : Ledger → Type 0 where
  empty : Reaches (record { bounties = []; audit = [] })
  posting :
      {l : Ledger}
      → Reaches l
      → (actor : Person) (id : ℕ) (title description : Text) (points : ℕ)
        (ticket problem : Option ℕ)
      → Reaches (create_bounty actor id title description points ticket problem l).1
  moving :
      {l : Ledger}
      → Reaches l
      → (kind : Transition) (actor : Person) (now id : ℕ)
      → Reaches (transition kind actor now id l).1

empty-AllSound : AllSound (record { bounties = []; audit = [] })
unfolding lookup
empty-AllSound k b found = ground arith

-- In every ledger that calls lead to from the empty one, a bounty has a claimant and a claim time exactly while it is
-- claimed or awarded, and an award time exactly once it is awarded.
pub Reaches-AllSound : {l : Ledger} → Reaches l → AllSound l
Reaches-AllSound empty = empty-AllSound
Reaches-AllSound (posting r actor id title description points ticket problem) =
    create-AllSound actor id title description points ticket problem _ (Reaches-AllSound r)
Reaches-AllSound (moving r kind actor now id) =
    transition-AllSound kind actor now id _ (Reaches-AllSound r)
