-- ===== src/Board/Problems/Sound.antt =====
-- The problems as the operations leave them.
use problem_bulletin.Prelude.{
  Option, ℕ, suc, ◌<◌, ◌≤◌, ◌≡◌, ◌⊎◌, ◌==◌, refl, ap, inl, inr, Bool, false, Option, none, some,
  List, [], ◌∷◌, count, arith, Option-cases,
}
use problem_bulletin.Prelude.Keyed.{IsKeyed, has_key, count_key-put, count-put}
use problem_bulletin.Prelude.Table.{lookup, put}
use problem_bulletin.Prelude.Text.{Text}
use problem_bulletin.Board.{Problem, problem_key, ProblemStatus, Fields, Board}
use problem_bulletin.Board.Problems.{
  max_pinned, max_seq, is_pin, ProblemCreate, create_problem, transition_status, claim_problem,
  pin_problem, update_problem,
}
use problem_bulletin.Board.Problems.Steps.{
  Change, kept, rewritten, added, create-Change, transition-Change, claim-Change, pin-Change,
  update-Change,
}

abbrev pub numbered : ℕ → Problem → Bool
numbered n p = elim p.seq_number [ none ↦ false | some m ↦ m == n ]

-- One row for each id, at most three pinned problems, and no number given twice.
pub record IsSound (problems : List Problem) : Type 0 where
  pub keyed : IsKeyed problem_key problems
  pub pins : count is_pin problems ≤ max_pinned
  pub once : (n : ℕ) → count (numbered n) problems ≤ 1

above_max :
    (n : ℕ) (problems : List Problem) → max_seq problems < n → count (numbered n) problems ≡ 0
unfolding max_seq
above_max n [] h = refl
above_max n (p ∷ problems) h = elim (Option-cases p.seq_number) [
  | inl e ↦ ground (arith, e, above_max n problems, h)
  | inr (m, e) ↦ ground (arith, e, above_max n problems, h)
]

rewritten-IsSound :
    (problems : List Problem) (q p : Problem)
    → lookup problem_key q.id problems ≡ some p
    → q.seq_number ≡ p.seq_number
    → (q.is_pinned ≡ p.is_pinned) ⊎ (q.is_pinned ≡ false) ⊎ (count is_pin problems < max_pinned)
    → IsSound problems
    → IsSound (put problem_key q problems)
rewritten-IsSound problems q p found same how h = record {
  keyed = λ k. rw (count_key-put problem_key k q problems) (h.keyed k);
  pins =
      ground (arith, how, count-put problem_key is_pin q p problems (h.keyed q.id) found, h.pins);
  once = λ n.
      let number : numbered n q ≡ numbered n p =
        ap (λ (o : Option ℕ). elim o [ none ↦ false | some m ↦ m == n ]) same in
      ground (
        arith,
        number,
        count-put problem_key (numbered n) q p problems (h.keyed q.id) found,
        h.once n,
      );
}

added-IsSound :
    (problems : List Problem) (p : Problem)
    → p.seq_number ≡ some (suc (max_seq problems))
    → p.is_pinned ≡ false
    → count (has_key problem_key p.id) problems ≡ 0
    → IsSound problems
    → IsSound (p ∷ problems)
added-IsSound problems p number plain fresh h = record {
  keyed = λ k. ground (arith, fresh, h.keyed k);
  pins = ground (arith, plain, h.pins);
  once = λ n. ground (arith, number, above_max n problems, h.once n);
}

-- What the clients of the service do, each with the id that a new problem gets.
pub data Call : Type 0 where
  create : ℕ → ℕ → ℕ → ProblemCreate → Call
  transition : ℕ → ℕ → ProblemStatus → ℕ → Call
  claim : ℕ → ℕ → ℕ → Call
  pin : ℕ → Call
  update : (ℕ → Text) → (Text → Option ℕ) → ℕ → ℕ → ℕ → Fields → Call

abbrev pub run : Call → Board → Board
run (create now new_id user args) b = (create_problem now new_id user args b).1
run (transition now id target actor) b = (transition_status now id target actor b).1
run (claim now id user) b = (claim_problem now id user b).1
run (pin id) b = (pin_problem id b).1
run (update show_uuid read_uuid now id editor updates) b =
    (update_problem show_uuid read_uuid now id editor updates b).1

-- A generated id is new.
abbrev pub IsFresh : Call → Board → Type 0
IsFresh (create now new_id user args) b = count (has_key problem_key new_id) b.problems ≡ 0
IsFresh _ b = Unit

pub data Reaches (b : Board) : Board → Type 0 where
  start : Reaches b b
  step : {mid : Board} (call : Call) → Reaches b mid → IsFresh call mid → Reaches b (run call mid)

Change-IsSound : (ps qs : List Problem) → Change ps qs → IsSound ps → IsSound qs
Change-IsSound ps qs kept h = h
Change-IsSound ps qs (rewritten q p found same how) h = rewritten-IsSound ps q p found same how h
Change-IsSound ps qs (added p number plain fresh) h = added-IsSound ps p number plain fresh h

run-Change : (call : Call) (b : Board) → IsFresh call b → Change b.problems (run call b).problems
run-Change (create now new_id user args) b fresh = create-Change b now new_id user args fresh
run-Change (transition now id target actor) b fresh = transition-Change b now id actor target
run-Change (claim now id user) b fresh = claim-Change b now id user
run-Change (pin id) b fresh = pin-Change b id
run-Change (update show_uuid read_uuid now id editor updates) b fresh =
    update-Change b show_uuid read_uuid now id editor updates

-- From a board on which each id has one row, at most three problems are pinned and no number is given
-- twice, this stays so whatever problems are created, moved, claimed, pinned and edited, one call
-- after another, if the id that a new problem gets is new.
pub Reaches-IsSound : (b c : Board) → Reaches b c → IsSound b.problems → IsSound c.problems
Reaches-IsSound b c start h = h
Reaches-IsSound b c (step {mid = m} call r fresh) h =
    Change-IsSound m.problems (run call m).problems (run-Change call m fresh)
      (Reaches-IsSound b m r h)
