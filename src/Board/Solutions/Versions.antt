-- ===== src/Board/Solutions/Versions.antt =====
-- The numbers of a solution's versions.
use problem_bulletin.Prelude.{
  ℕ, suc, ◌≡◌, ◌≤◌, any, false, ◌==◌, refl, sym, ap, inl, inr, Bool, ◌&&◌, List, [], ◌∷◌, count,
  ltb, leb, arith, if◌then◌else◌, Bool-cases, Option-cases,
}
use problem_bulletin.Prelude.Table.{lookup}
use problem_bulletin.Board.{problem_key, is_terminal}
use problem_bulletin.Board.Solutions.{
  SolutionStatus, solution_key, SolutionVersion, Tables, Draft, version_of, create_solution, is_of,
  max_version, create_version, has_number, update_solution_status,
}
use problem_bulletin.Board.Solutions.Accepted.{Call, create, revise, judge, run}

abbrev pub numbered : ℕ → ℕ → SolutionVersion → Bool
numbered solution n v = is_of solution v && v.version_number == n

-- The versions of each solution have the numbers from 1 to the greatest, each once.
abbrev pub IsNumbered : List SolutionVersion → Type 0
IsNumbered versions =
    (solution n : ℕ)
    → count (numbered solution n) versions
      ≡ (if ltb 0 n && leb n (max_version solution versions) then 1 else 0)

cons-IsNumbered :
    (v : SolutionVersion) (versions : List SolutionVersion)
    → v.version_number ≡ suc (max_version v.solution_id versions)
    → IsNumbered versions
    → IsNumbered (v ∷ versions)
unfolding max_version
cons-IsNumbered v versions number h solution n = elim (Bool-cases (v.solution_id == solution)) [
  | inl here ↦
      let same : v.solution_id ≡ solution = ground (arith, here) in
      let top : max_version v.solution_id versions ≡ max_version solution versions =
        ap (λ k. max_version k versions) same in
      ground (arith, here, number, top, h solution n)
  | inr there ↦ ground (arith, there, h solution n)
]

absent-max :
    (id : ℕ) (versions : List SolutionVersion)
    → count (is_of id) versions ≡ 0
    → max_version id versions ≡ 0
unfolding max_version
absent-max id [] h = refl
absent-max id (v ∷ versions) h = ground (arith, h, absent-max id versions)

absent-count :
    (id n : ℕ) (versions : List SolutionVersion)
    → any (has_number id n) versions ≡ false
    → count (numbered id n) versions ≡ 0
absent-count id n [] h = refl
absent-count id n (v ∷ versions) h = ground (arith, h, absent-count id n versions)

-- A number after one that was the greatest at some time is taken, or the next one.
next_number :
    (id top : ℕ) (versions : List SolutionVersion)
    → top ≤ max_version id versions
    → any (has_number id (suc top)) versions ≡ false
    → IsNumbered versions
    → suc top ≡ suc (max_version id versions)
next_number id top versions before free h =
    let none_there = absent-count id (suc top) versions free in
    ground (arith, before, h id (suc top), none_there)

-- No version has the id of a solution that is still to be made, and the greatest number that a
-- revision found is not above that of now: versions are only added.
abbrev pub IsTimely : Call → Tables → Type 0
IsTimely (create now id version problem user draft) db = count (is_of id) db.versions ≡ 0
IsTimely (revise earlier version id user draft) db =
    max_version id earlier ≤ max_version id db.versions
IsTimely (judge now id actor status) db = Unit

module _ (db : Tables) where
  create-IsNumbered :
      (now id version problem user : ℕ) (draft : Draft)
      → count (is_of id) db.versions ≡ 0
      → IsNumbered db.versions
      → IsNumbered (create_solution now id version problem user draft db).1.versions
  unfolding create_solution
  create-IsNumbered now id version problem user draft unused h =
      elim (Option-cases (lookup problem_key problem db.problems)) [
        | inl e ↦ rw (create_solution, e) h
        | inr (p, e) ↦ elim (Bool-cases (is_terminal p.status)) [
          | inl over ↦ rw (create_solution, e, over) h
          | inr on ↦
              rw (create_solution, e, on)
                (cons-IsNumbered (version_of version id 1 user draft) db.versions
                  (ap suc (sym (absent-max id db.versions unused))) h)
        ]
      ]

  revise-IsNumbered :
      (earlier : List SolutionVersion) (version id user : ℕ) (draft : Draft)
      → max_version id earlier ≤ max_version id db.versions
      → IsNumbered db.versions
      → IsNumbered (create_version earlier version id user draft db).1.versions
  unfolding create_version
  revise-IsNumbered earlier version id user draft before h =
      elim (Option-cases (lookup solution_key id db.solutions)) [
        | inl e ↦ rw (create_version, e) h
        | inr (s, e) ↦
            let number = suc (max_version id earlier) in
            elim (Bool-cases (any (has_number id number) db.versions)) [
              | inl taken ↦ rw (create_version, e, taken) h
              | inr free ↦
                  rw (create_version, e, free)
                    (cons-IsNumbered (version_of version id number user draft) db.versions
                      (next_number id (max_version id earlier) db.versions before free h) h)
            ]
      ]

  judge-versions :
      (now id actor : ℕ) (status : SolutionStatus)
      → (update_solution_status now id actor status db).1.versions ≡ db.versions
  unfolding update_solution_status
  judge-versions now id actor status = ground arith

-- Where the versions of each solution are numbered from 1 on without a gap and a repetition, they
-- are so after a solution is created, revised or judged, also if a revision chose its number
-- before other versions were added, as the database refuses a number that is taken. It takes that
-- no version has the id of a solution that is created, and that the greatest number a revision
-- found is at most that of now.
pub run-IsNumbered :
    (call : Call) (db : Tables)
    → IsTimely call db
    → IsNumbered db.versions
    → IsNumbered (run call db).versions
run-IsNumbered (create now id version problem user draft) db unused h =
    create-IsNumbered db now id version problem user draft unused h
run-IsNumbered (revise earlier version id user draft) db timely h =
    revise-IsNumbered db earlier version id user draft timely h
run-IsNumbered (judge now id actor status) db unused h =
    rw (judge-versions db now id actor status) h
