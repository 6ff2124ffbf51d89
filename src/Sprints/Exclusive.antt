-- ===== src/Sprints/Exclusive.antt =====
-- `SprintService` as its clients drive it.
use mathlib.Core.Path.{subst}
use problem_bulletin.Prelude.{
  ℕ, ◌≡◌, ◌==◌, refl, sym, inl, inr, Bool, true, false, not, ◌&&◌, Option, none, some, List, [],
  ◌∷◌, count, any, arith, if◌then◌else◌, Bool-cases, Option-cases,
}
use problem_bulletin.Prelude.Table.{lookup, put, remove, lookup_key}
use problem_bulletin.Prelude.Text.{Text, is_blank}
use problem_bulletin.Domain.{active, closed}
use problem_bulletin.Sprints.{
  Sprint, sprint_key, Board, create, SprintPatch, update, start, close, delete, add_ticket,
  remove_ticket, is_running, is_active, is_planned, patched, reversed,
}
use problem_bulletin.Sprints.Lifecycle.{IsExclusive, put-IsExclusive, remove-IsExclusive}

if_IsExclusive :
    (b : Bool) {xs ys : List Sprint}
    → IsExclusive xs
    → IsExclusive ys
    → IsExclusive (if b then xs else ys)
if_IsExclusive true p q = p
if_IsExclusive false p q = q

module _ (id : ℕ) (b : Board) where
  start-missing : lookup sprint_key id b.sprints ≡ none → (start id b).1.sprints ≡ b.sprints
  unfolding start
  start-missing e = ground (arith, e)

  start-sprints :
      (s : Sprint)
      → lookup sprint_key id b.sprints ≡ some s
      → (start id b).1.sprints ≡ (
          if is_planned s.state && not (any (is_running s.project_id) b.sprints)
          then put sprint_key (record s { state = active }) b.sprints
          else b.sprints)
  unfolding start
  start-sprints s e = ground (arith, e)

  start-IsExclusive : IsExclusive b.sprints → IsExclusive (start id b).1.sprints
  start-IsExclusive h = elim (Option-cases (lookup sprint_key id b.sprints)) [
    | inl e ↦ rw (start-missing e) h
    | inr (s, e) ↦
        let at : lookup sprint_key s.id b.sprints ≡ some s =
          subst (λ k. lookup sprint_key k b.sprints ≡ some s)
            (sym (lookup_key sprint_key id b.sprints e)) e in
        elim (Bool-cases (any (is_running s.project_id) b.sprints)) [
          | inl other ↦
              let kept : (start id b).1.sprints ≡ b.sprints =
                ground (arith, start-sprints s e, other) in
              rw kept h
          | inr alone ↦ rw (start-sprints s e) (
              if_IsExclusive _
                (put-IsExclusive (record s { state = active }) s b.sprints at refl (inr (inr alone))
                  h)
                h)
        ]
  ]

  close-missing : lookup sprint_key id b.sprints ≡ none → (close id b).1.sprints ≡ b.sprints
  unfolding close
  close-missing e = ground (arith, e)

  close-sprints :
      (s : Sprint)
      → lookup sprint_key id b.sprints ≡ some s
      → (close id b).1.sprints ≡ (
          if is_active s.state
          then put sprint_key (record s { state = closed }) b.sprints
          else b.sprints)
  unfolding close
  close-sprints s e = ground (arith, e)

  close-IsExclusive : IsExclusive b.sprints → IsExclusive (close id b).1.sprints
  close-IsExclusive h = elim (Option-cases (lookup sprint_key id b.sprints)) [
    | inl e ↦ rw (close-missing e) h
    | inr (s, e) ↦
        let at : lookup sprint_key s.id b.sprints ≡ some s =
          subst (λ k. lookup sprint_key k b.sprints ≡ some s)
            (sym (lookup_key sprint_key id b.sprints e)) e in
        rw (close-sprints s e) (
          if_IsExclusive _
            (put-IsExclusive (record s { state = closed }) s b.sprints at refl (inl refl) h) h)
  ]

  update-missing :
      (patch : SprintPatch)
      → lookup sprint_key id b.sprints ≡ none
      → (update id patch b).1.sprints ≡ b.sprints
  unfolding update
  update-missing patch e = ground (arith, e)

  update-sprints :
      (patch : SprintPatch) (s : Sprint)
      → lookup sprint_key id b.sprints ≡ some s
      → (update id patch b).1.sprints ≡ (
          if not patch.unknown
            && not (reversed (patched patch s).start_date (patched patch s).end_date)
          then put sprint_key (patched patch s) b.sprints
          else b.sprints)
  unfolding update
  update-sprints patch s e = ground (arith, e)

  update-IsExclusive :
      (patch : SprintPatch) → IsExclusive b.sprints → IsExclusive (update id patch b).1.sprints
  update-IsExclusive patch h = elim (Option-cases (lookup sprint_key id b.sprints)) [
    | inl e ↦ rw (update-missing patch e) h
    | inr (s, e) ↦
        let at : lookup sprint_key s.id b.sprints ≡ some s =
          subst (λ k. lookup sprint_key k b.sprints ≡ some s)
            (sym (lookup_key sprint_key id b.sprints e)) e in
        rw (update-sprints patch s e) (
          if_IsExclusive _
            (put-IsExclusive (patched patch s) s b.sprints at refl (inr (inl refl)) h) h)
  ]

  delete-missing : lookup sprint_key id b.sprints ≡ none → (delete id b).1.sprints ≡ b.sprints
  unfolding delete
  delete-missing e = ground (arith, e)

  delete-sprints :
      (s : Sprint)
      → lookup sprint_key id b.sprints ≡ some s
      → (delete id b).1.sprints
        ≡ (if is_planned s.state then remove sprint_key id b.sprints else b.sprints)
  unfolding delete
  delete-sprints s e = ground (arith, e)

  delete-IsExclusive : IsExclusive b.sprints → IsExclusive (delete id b).1.sprints
  delete-IsExclusive h = elim (Option-cases (lookup sprint_key id b.sprints)) [
    | inl e ↦ rw (delete-missing e) h
    | inr (s, e) ↦ rw (delete-sprints s e) (if_IsExclusive _ (remove-IsExclusive id b.sprints h) h)
  ]

no_row :
    (k : ℕ) (rows : List Sprint)
    → lookup sprint_key k rows ≡ none
    → count (λ (s : Sprint). s.id == k) rows ≡ 0
unfolding lookup
no_row k [] e = refl
no_row k (r ∷ rows) e = ground (arith, no_row k rows)

create-IsExclusive :
    (new : ℕ) (project : Option ℕ) (name : Text) (goal : Option Text) (from to : Option ℕ)
    (b : Board)
    → lookup sprint_key new b.sprints ≡ none
    → IsExclusive b.sprints
    → IsExclusive (create new project name goal from to b).1.sprints
unfolding create
create-IsExclusive new none name goal from to b fresh h = elim (Bool-cases (is_blank name)) [
  | inl e ↦ rw e h
  | inr e ↦ elim (Bool-cases (reversed from to)) [ inl f ↦ rw (e, f) h | inr f ↦ rw (e, f) h ]
]
create-IsExclusive new (some p) name goal from to b fresh h = elim (Bool-cases (is_blank name)) [
  | inl e ↦ rw e h
  | inr e ↦ elim (Bool-cases (reversed from to)) [
    | inl f ↦ rw (e, f) h
    | inr f ↦
        rw (e, f)
          (record {
            keyed = λ k. ground (arith, h.keyed k, no_row new b.sprints fresh);
            exclusive = λ project. ground (arith, h.exclusive project);
          })
  ]
]

-- What any calls lead to; the UUID of a new sprint is none that is in use.
pub data Reaches (b : Board) : Board → Type 0 where
  started_from : Reaches b b
  creating :
      {c : Board}
      → Reaches b c
      → (new : ℕ) (project : Option ℕ) (name : Text) (goal : Option Text) (from to : Option ℕ)
      → lookup sprint_key new c.sprints ≡ none
      → Reaches b (create new project name goal from to c).1
  updating :
      {c : Board} → Reaches b c → (id : ℕ) (patch : SprintPatch) → Reaches b (update id patch c).1
  starting : {c : Board} → Reaches b c → (id : ℕ) → Reaches b (start id c).1
  closing : {c : Board} → Reaches b c → (id : ℕ) → Reaches b (close id c).1
  deleting : {c : Board} → Reaches b c → (id : ℕ) → Reaches b (delete id c).1
  adding : {c : Board} → Reaches b c → (id ticket : ℕ) → Reaches b (add_ticket id ticket c).1
  removing : {c : Board} → Reaches b c → (id ticket : ℕ) → Reaches b (remove_ticket id ticket c).1

adding-sprints : (id ticket : ℕ) (b : Board) → (add_ticket id ticket b).1.sprints ≡ b.sprints
unfolding add_ticket
adding-sprints id ticket b = elim (Option-cases (lookup sprint_key id b.sprints)) [
  | inl e ↦ ground (arith, e)
  | inr (s, e) ↦ ground (arith, e)
]

removing-sprints : (id ticket : ℕ) (b : Board) → (remove_ticket id ticket b).1.sprints ≡ b.sprints
unfolding remove_ticket
removing-sprints id ticket b = refl

-- From sprints of which no project has two active ones and no two have one id, no calls, in whatever
-- order, give a project a second active sprint, if new sprints get ids that are not in use.
pub Reaches-IsExclusive :
    {b c : Board} → IsExclusive b.sprints → Reaches b c → IsExclusive c.sprints
Reaches-IsExclusive h started_from = h
Reaches-IsExclusive h (creating r new project name goal from to fresh) =
    create-IsExclusive new project name goal from to _ fresh (Reaches-IsExclusive h r)
Reaches-IsExclusive h (updating r id patch) =
    update-IsExclusive id _ patch (Reaches-IsExclusive h r)
Reaches-IsExclusive h (starting r id) = start-IsExclusive id _ (Reaches-IsExclusive h r)
Reaches-IsExclusive h (closing r id) = close-IsExclusive id _ (Reaches-IsExclusive h r)
Reaches-IsExclusive h (deleting r id) = delete-IsExclusive id _ (Reaches-IsExclusive h r)
Reaches-IsExclusive h (adding {c = d} r id ticket) =
    rw (adding-sprints id ticket d) (Reaches-IsExclusive h r)
Reaches-IsExclusive h (removing {c = d} r id ticket) =
    rw (removing-sprints id ticket d) (Reaches-IsExclusive h r)
