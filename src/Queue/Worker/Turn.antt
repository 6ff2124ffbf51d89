-- ===== src/Queue/Worker/Turn.antt =====
-- One turn of the worker.
use mathlib.Core.Path.{subst}
use problem_bulletin.Prelude.{
  ◌⊎◌, Bool-cases, ℕ, zero, suc, ◌≤◌, ◌≡◌, ◌∙◌, refl, sym, ap, ◌==◌, true, false, none, some, inl,
  inr, count, arith, Option-cases,
}
use problem_bulletin.Prelude.Table.{lookup, put, lookup-put}
use problem_bulletin.Domain.{Db, Context}
use problem_bulletin.Domain.Runs.{AgentRun, run_key}
use problem_bulletin.Queue.Effects.{ShowId}
use problem_bulletin.Queue.Worker.{
  Provider, Refuses, Turned, idle, lost, processed, Ran, raised, gave, is_pending, oldest, started,
  settle, process_one,
}
use problem_bulletin.Queue.Worker.Drain.{
  finished, Keyed, pending-put, keyed-put, oldest-none, oldest-pending, oldest-lookup, oldest-first,
  overtakes,
}

settle-runs :
    (show : ShowId) (ctx : Context) (r : AgentRun) (ran : Ran) (db : Db)
    → (settle show ctx r ran db).runs ≡ put run_key (finished ctx r ran) db.runs
unfolding settle
settle-runs show ctx r (raised why) db = refl
settle-runs show ctx r (gave result) db = ground arith

finished-id : (ctx : Context) (r : AgentRun) (ran : Ran) → (finished ctx r ran).id ≡ r.id
finished-id ctx r (raised why) = refl
finished-id ctx r (gave result) = ground arith

finished-pending :
    (ctx : Context) (r : AgentRun) (ran : Ran) → is_pending (finished ctx r ran) ≡ false
finished-pending ctx r (raised why) = refl
finished-pending ctx r (gave result) = ground arith

module _ (provider : Provider) (refuses : Refuses) (show : ShowId) (ctx : Context) (db : Db) where
  no_run : oldest db.runs ≡ none → process_one provider refuses show ctx db ≡ (idle, db)
  unfolding process_one
  no_run e = ground (arith, e)

  -- What the provider does with a run.
  abbrev pub outcome : AgentRun → Ran
  outcome r = provider r.agent_id r.ticket_id r.comment_id r.prompt

  -- The row that a turn leaves of the run that it takes.
  abbrev pub result_row : AgentRun → AgentRun
  result_row r = finished ctx (started ctx r) (outcome r)

  turn-id :
      (r : AgentRun)
      → oldest db.runs ≡ some r
      → refuses r (outcome r) ≡ false
      → (process_one provider refuses show ctx db).0 ≡ processed r.id
  unfolding process_one
  turn-id r e fine = ground (arith, e, fine)

  turn-lost :
      (r : AgentRun)
      → oldest db.runs ≡ some r
      → refuses r (outcome r) ≡ true
      → process_one provider refuses show ctx db ≡ (lost, db)
  unfolding process_one
  turn-lost r e refused = ground (arith, e, refused)

  turn-runs :
      (r : AgentRun)
      → oldest db.runs ≡ some r
      → refuses r (outcome r) ≡ false
      → (process_one provider refuses show ctx db).1.runs
        ≡ put run_key (result_row r) (put run_key (started ctx r) db.runs)
  unfolding process_one
  turn-runs r e fine = ground (
    arith,
    e,
    fine,
    settle-runs show ctx (started ctx r) (outcome r)
        (record db { runs = put run_key (started ctx r) db.runs }),
  )

  -- The turn of a worker on a queue that is not empty.
  pub record Turn (r : AgentRun) : Type 0 where
    pub returns : (process_one provider refuses show ctx db).0 ≡ processed r.id
    pub was_pending : is_pending r ≡ true
    pub first : overtakes r db.runs ≡ false
    pub row :
        lookup run_key r.id (process_one provider refuses show ctx db).1.runs ≡ some (result_row r)
    pub others :
        (k : ℕ)
        → (r.id == k) ≡ false
        → lookup run_key k (process_one provider refuses show ctx db).1.runs
          ≡ lookup run_key k db.runs
    pub shorter :
        suc (count is_pending (process_one provider refuses show ctx db).1.runs)
        ≡ count is_pending db.runs
    pub keyed : Keyed (process_one provider refuses show ctx db).1.runs

  accepted-Turn :
      (r : AgentRun)
      → oldest db.runs ≡ some r
      → Keyed db.runs
      → refuses r (outcome r) ≡ false
      → Turn r
  accepted-Turn r e h fine =
      let running_row = started ctx r in
      let final = result_row r in
      let mid = put run_key running_row db.runs in
      let same : final.id ≡ r.id = finished-id ctx running_row (outcome r) in
      let at = oldest-lookup db.runs r h e in
      let at_mid : lookup run_key r.id mid ≡ some running_row =
        ground (arith, lookup-put run_key r.id running_row db.runs, at) in
      let keyed_mid : Keyed mid = λ k. rw (keyed-put k running_row db.runs) (h k) in
      let at_final : lookup run_key final.id mid ≡ some running_row =
        subst (λ k. lookup run_key k mid ≡ some running_row) (sym same) at_mid in
      record {
        returns = turn-id r e fine;
        was_pending = oldest-pending db.runs r e;
        first = oldest-first db.runs r e;
        row =
            ap (lookup run_key r.id) (turn-runs r e fine)
            ∙ ground (arith, lookup-put run_key r.id final mid, at_mid, same);
        others = λ k apart.
            ap (lookup run_key k) (turn-runs r e fine)
            ∙ ground (
              arith,
              lookup-put run_key k final mid,
              lookup-put run_key k running_row db.runs,
              same,
              apart,
            );
        shorter =
            ap (λ runs. suc (count is_pending runs)) (turn-runs r e fine)
            ∙ ground (
              arith,
              pending-put final running_row mid (keyed_mid final.id) at_final,
              pending-put running_row r db.runs (h r.id) at,
              oldest-pending db.runs r e,
              finished-pending ctx running_row (outcome r),
            );
        keyed = λ k. omega (
          arith,
          ap (λ runs. count (λ (q : AgentRun). q.id == k) runs) (turn-runs r e fine),
          keyed-put k final mid,
          keyed_mid k,
        );
      }

  -- If no two runs have one id: a turn on a queue that is not empty takes the pending run that no
  -- other overtakes, returns its id, and leaves it done or failed as the provider answers; all
  -- other runs stay, and one run less is pending. Where the database refuses a write that follows the
  -- answer, the turn raises and leaves everything as it was.
  pub turn_lem :
      (r : AgentRun)
      → oldest db.runs ≡ some r
      → Keyed db.runs
      → (refuses r (outcome r) ≡ false) × Turn r
        ⊎ (refuses r (outcome r) ≡ true) × (process_one provider refuses show ctx db ≡ (lost, db))
  turn_lem r e h = elim (Bool-cases (refuses r (outcome r))) [
    | inl refused ↦ inr (refused, turn-lost r e refused)
    | inr fine ↦ inl (fine, accepted-Turn r e h fine)
  ]

-- Turns of a worker, one after another.
unfoldable pub turns : ℕ → Provider → Refuses → ShowId → Context → Db → Db
turns zero provider refuses show ctx db = db
turns (suc n) provider refuses show ctx db =
    turns n provider refuses show ctx (process_one provider refuses show ctx db).1

module _ (provider : Provider) (refuses : Refuses) (show : ShowId) (ctx : Context) where
  -- If no two runs have one id and the database refuses none of the writes that follow an answer:
  -- after as many turns as runs are pending, or more, none is pending, whatever the provider answers.
  pub turns_drain :
      ((r : AgentRun) (ran : Ran) → refuses r ran ≡ false)
      → (n : ℕ) (db : Db) → Keyed db.runs
      → count is_pending db.runs ≤ n
      → count is_pending (turns n provider refuses show ctx db).runs ≡ 0
  unfolding turns
  turns_drain fine zero db h le = omega arith
  turns_drain fine (suc n) db h le = elim (Option-cases (oldest db.runs)) [
    | inl e ↦
        let still : (process_one provider refuses show ctx db).1 ≡ db =
          ap (λ (p : Turned × Db). p.1) (no_run provider refuses show ctx db e) in
        subst (λ d. count is_pending (turns n provider refuses show ctx d).runs ≡ 0) (sym still)
          (turns_drain fine n db h (omega (arith, oldest-none db.runs e)))
    | inr (r, e) ↦
        let t =
          accepted-Turn provider refuses show ctx db r e h
            (fine r (outcome provider refuses show ctx db r)) in
        turns_drain fine n (process_one provider refuses show ctx db).1 t.keyed
          (omega (arith, t.shorter, le))
  ]
