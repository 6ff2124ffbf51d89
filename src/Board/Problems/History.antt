-- ===== src/Board/Problems/History.antt =====
-- Edits and their snapshots, and the moves of a problem.
use problem_bulletin.Prelude.{
  ℕ, sym, ◌≡◌, refl, ap, ◌∙◌, inl, inr, true, false, Option, none, some, ◌∷◌, arith, Bool-cases,
  Option-cases,
}
use problem_bulletin.Prelude.Table.{lookup, lookup-put, lookup_key}
use problem_bulletin.Prelude.Text.{Text}
use problem_bulletin.Board.{
  User, user_key, ProblemStatus, Problem, problem_key, Fields, CategoryValue, badly_formed_uuid,
  Board, actor_missing, problem_missing, forbidden_transition, ok, err,
}
use problem_bulletin.Board.Problems.{
  transition_status, update_problem, may_move, moved, write_problem, write_edit, shown, set_to,
  read_category, before, or_else, is_set, edited, snapshot_of, apply_updates, sets_any,
}

-- What a move does: it is refused as there is no such actor or problem, or as the table of moves or its
-- predicate forbids it; or the problem alone is moved.
pub data Moved (now id : ℕ) (target : ProblemStatus) (actor : ℕ) (b : Board) : Type 0 where
  no_actor :
      lookup user_key actor b.users ≡ none
      → transition_status now id target actor b ≡ (err actor_missing, b)
      → Moved now id target actor b
  no_problem :
      lookup problem_key id b.problems ≡ none
      → transition_status now id target actor b ≡ (err problem_missing, b)
      → Moved now id target actor b
  forbidden :
      (u : User) (p : Problem)
      → lookup user_key actor b.users ≡ some u
      → lookup problem_key id b.problems ≡ some p
      → may_move u p target ≡ false
      → transition_status now id target actor b ≡ (err (forbidden_transition p.status target), b)
      → Moved now id target actor b
  done :
      (u : User) (p : Problem)
      → lookup user_key actor b.users ≡ some u
      → lookup problem_key id b.problems ≡ some p
      → may_move u p target ≡ true
      → transition_status now id target actor b
        ≡ (ok (moved now target p), write_problem (moved now target p) b)
      → Moved now id target actor b

-- Each call of `transition_status` is refused and changes nothing, since the actor or the problem
-- is missing or the move is not one of the table with a predicate that holds; or the move is one and
-- the problem, and nothing else, gets the new status and its time.
transition_status_exact :
    (now id : ℕ) (target : ProblemStatus) (actor : ℕ) (b : Board) → Moved now id target actor b
unfolding transition_status
transition_status_exact now id target actor b =
    elim (Option-cases (lookup user_key actor b.users)) [
      | inl e ↦ no_actor e (rw (transition_status, e) refl)
      | inr (u, e) ↦ elim (Option-cases (lookup problem_key id b.problems)) [
        | inl f ↦ no_problem f (rw (transition_status, e, f) refl)
        | inr (p, f) ↦ elim (Bool-cases (may_move u p target)) [
          | inl y ↦ done u p e f y (rw (transition_status, e, f, y) refl)
          | inr n ↦ forbidden u p e f n (rw (transition_status, e, f, n) refl)
        ]
      ]
    ]

put_back {ℓ} :
    {A : Type ℓ} (old : A) (new : Option A) → or_else (before old new) (or_else new old) ≡ old
put_back old none = refl
put_back old (some new) = refl

set_before {ℓ} :
    {A : Type ℓ} (old older : A) (new : Option A)
    → is_set (before older (before old new)) ≡ is_set (before old new)
set_before old older none = refl
set_before old older (some new) = refl

some_inj {ℓ} : {A : Type ℓ} (a b : A) → some a ≡ some b → a ≡ b
some_inj a b h = cc

module _ (show_uuid : ℕ → Text) (read_uuid : Text → Option ℕ)
    (readable : (k : ℕ) → read_uuid (show_uuid k) ≡ some k) where
  abbrev read : Option (Option CategoryValue) → Option (Option (Option ℕ))
  read = read_category show_uuid read_uuid

  abbrev snapshot : Problem → Fields → Fields
  snapshot = snapshot_of show_uuid read_uuid

  -- The text of the category before is read as that category.
  category_back :
      (old : Option ℕ) (new : Option (Option CategoryValue)) (c : Option (Option ℕ))
      → read new ≡ some c
      → (back : Option (Option ℕ)) × (read (before (shown show_uuid read_uuid old) new) ≡ some back)
        × (or_else back (or_else c old) ≡ old)
  category_back old none c h = (none, refl, ap (λ d. or_else d old) (sym (some_inj none c h)))
  category_back none (some v) c h = (some none, refl, refl)
  category_back (some k) (some v) c h =
      (some (some k), ap (set_to show_uuid read_uuid) (readable k), refl)

  restored :
      (now later : ℕ) (p : Problem) (updates : Fields) (c back : Option (Option ℕ))
      → or_else back (or_else c p.category_id) ≡ p.category_id
      → edited later (edited now p updates c) (snapshot p updates) back
        ≡ record p { activity_at = some later }
  unfolding apply_updates snapshot_of
  restored now later p updates c back h =
      rw (put_back p.title updates.title, put_back p.description updates.description, h) refl

  set_again :
      (p q : Problem) (updates : Fields)
      → sets_any (snapshot q (snapshot p updates)) ≡ sets_any (snapshot p updates)
  unfolding snapshot_of
  set_again p q updates =
      rw
        (
          set_before p.title q.title updates.title,
          set_before p.description q.description updates.description,
          set_before (shown show_uuid read_uuid p.category_id)
              (shown show_uuid read_uuid q.category_id) updates.category_id,
        )
        refl

  snapshot_category :
      (p : Problem) (updates : Fields) (back : Option (Option ℕ))
      → read (before (shown show_uuid read_uuid p.category_id) updates.category_id) ≡ some back
      → read (snapshot p updates).category_id ≡ some back
  unfolding snapshot_of
  snapshot_category p updates back h = h

  update_found :
      (now id editor : ℕ) (updates : Fields) (b : Board) (p : Problem) (c : Option (Option ℕ))
      → lookup problem_key id b.problems ≡ some p
      → sets_any (snapshot p updates) ≡ true
      → read updates.category_id ≡ some c
      → update_problem show_uuid read_uuid now id editor updates b
        ≡ (ok (edited now p updates c), write_edit show_uuid read_uuid now id editor updates c p b)
  unfolding update_problem
  update_found now id editor updates b p c found sets reads =
      rw (update_problem, found, sets, reads) refl

  -- An update that is answered has a category that can be read.
  answered :
      (now id editor : ℕ) (updates : Fields) (b : Board) (p q : Problem)
      → lookup problem_key id b.problems ≡ some p
      → sets_any (snapshot p updates) ≡ true
      → (update_problem show_uuid read_uuid now id editor updates b).0 ≡ ok q
      → (c : Option (Option ℕ)) × (read updates.category_id ≡ some c)
  unfolding update_problem
  answered now id editor updates b p q found sets goes =
      elim (Option-cases (read updates.category_id)) [
        | inr (c, e) ↦ (c, e)
        | inl e ↦ absurd (never (rw (update_problem, found, sets, e) refl))
      ]
    where
      never :
          update_problem show_uuid read_uuid now id editor updates b ≡ (err badly_formed_uuid, b)
          → ⊥
      never h = clash (sym (ap (λ r. r.0) h) ∙ goes)
        where
          clash : err badly_formed_uuid ≡ ok q → ⊥
          clash k = cc

  edit_found :
      (now id editor : ℕ) (updates : Fields) (c : Option (Option ℕ)) (b : Board) (p : Problem)
      → lookup problem_key id b.problems ≡ some p
      → lookup problem_key id (write_edit show_uuid read_uuid now id editor updates c p b).problems
        ≡ some (edited now p updates c)
  unfolding apply_updates
  edit_found now id editor updates c b p found =
      let at : p.id ≡ id = lookup_key problem_key id b.problems found in
      ground (arith, lookup-put problem_key id (edited now p updates c) b.problems, found, at)

  -- The snapshot that an edit leaves in the history undoes it: an edit of an existing problem that
  -- sets a field at all and goes through puts one entry in front of the history, and an update with
  -- the snapshot of this entry, in which the category is the text of its id, makes title, description
  -- and category what they were before, and changes nothing else of the problem but the time of its
  -- last activity. It takes that `uuid.UUID` reads the text of an id as that id.
  pub update-snapshot :
      (now later id editor reviser : ℕ) (updates : Fields) (b : Board) (p q : Problem)
      → lookup problem_key id b.problems ≡ some p
      → sets_any (snapshot_of show_uuid read_uuid p updates) ≡ true
      → (update_problem show_uuid read_uuid now id editor updates b).0 ≡ ok q
      → ((update_problem show_uuid read_uuid now id editor updates b).1.history
          ≡ record {
            problem_id = id;
            editor_id = editor;
            snapshot = snapshot_of show_uuid read_uuid p updates;
          }
            ∷ b.history)
        × (lookup problem_key id
              (update_problem show_uuid read_uuid later id reviser
                (snapshot_of show_uuid read_uuid p updates)
                (update_problem show_uuid read_uuid now id editor updates b).1).1.problems
            ≡ some (record p { activity_at = some later }))
  update-snapshot now later id editor reviser updates b p q found sets goes =
      let (c, reads) = answered now id editor updates b p q found sets goes in
      let (back, again, same) = category_back p.category_id updates.category_id c reads in
      let first = update_found now id editor updates b p c found sets reads in
      let b1 = write_edit show_uuid read_uuid now id editor updates c p b in
      let r = edited now p updates c in
      let at = edit_found now id editor updates c b p found in
      let second =
        update_found later id reviser (snapshot p updates) b1 r back at
          (set_again p r updates ∙ sets) (snapshot_category p updates back again) in
      (
        ap (λ r. r.1.history) first,
        ap
              (λ r.
                lookup problem_key id
                  (update_problem show_uuid read_uuid later id reviser (snapshot p updates)
                    r.1).1.problems)
              first
            ∙ ap (λ r. lookup problem_key id r.1.problems) second
            ∙ edit_found later id reviser (snapshot p updates) back b1 r at
            ∙ ap some (restored now later p updates c back same),
      )
