-- ===== src/Board/Problems.antt =====
-- app/services/problems.py: create, move, claim, pin and update a problem.
pub mod Steps
pub mod Sound
pub mod History
use problem_bulletin.Prelude.{
  ℕ, zero, suc, ◌+◌, ◌==◌, Bool, true, false, not, ◌&&◌, ◌||◌, Option, none, some, List, [], ◌∷◌,
  map, ◌++◌, length, filter, any, count, ltb, leb, if◌then◌else◌,
}
use problem_bulletin.Prelude.Table.{lookup, put}
use problem_bulletin.Prelude.Text.{Text}
use problem_bulletin.Board.{
  User, user_key, Role, is_admin, ProblemStatus, opened, claimed, solved, accepted, duplicate,
  problem_status_eq, Category, category_key, Problem, problem_key, ProblemTag, Claim, Fields,
  ProblemEditHistory, Board, BoardError, category_missing, tags_missing, actor_missing,
  problem_missing, pin_limit, badly_formed_uuid, CategoryValue, uuid, str, forbidden_transition,
  Outcome, ok, err,
}

-- `ProblemCreate`
pub record ProblemCreate : Type 0 where
  pub title : Text
  pub description : Text
  pub category_id : ℕ
  pub domain_id : Option ℕ
  pub tag_ids : List ℕ
  pub is_anonymous : Bool

abbrev max_opt : Option ℕ → ℕ → ℕ
max_opt none m = m
max_opt (some n) m = if ltb m n then n else m

-- `coalesce(max(Problem.seq_number), 0)`
unfoldable pub max_seq : List Problem → ℕ
max_seq [] = 0
max_seq (p ∷ problems) = max_opt p.seq_number (max_seq problems)

abbrev pub is_live : Option Category → Bool
is_live none = false
is_live (some c) = elim c.deleted_at [ none ↦ true | some _ ↦ false ]

abbrev pub new_problem : ℕ → ℕ → ℕ → ProblemCreate → List Problem → Problem
new_problem now new_id user args problems = record {
  id = new_id;
  seq_number = some (suc (max_seq problems));
  title = args.title;
  description = args.description;
  author_id = some user;
  status = opened;
  category_id = some args.category_id;
  domain_id = args.domain_id;
  is_pinned = false;
  is_anonymous = args.is_anonymous;
  activity_at = some now;
  created_at = now;
}

-- As many tags are found as ids are given.
abbrev pub tags_found : List ℕ → List ℕ → Bool
tags_found ids tags = count (λ t. any (λ k. t == k) ids) tags == length ids

-- `create_problem`
unfoldable pub create_problem : ℕ → ℕ → ℕ → ProblemCreate → Board → Outcome Problem × Board
unfolding max_seq
create_problem now new_id user args b =
    if not (is_live (lookup category_key args.category_id b.categories))
    then (err category_missing, b)
    else if not (tags_found args.tag_ids b.tags)
    then (err tags_missing, b)
    else let p = new_problem now new_id user args b.problems in
      (
        ok p,
        record b {
          problems = p ∷ b.problems;
          problem_tags =
              map (λ (t : ℕ). record { problem_id = new_id; tag_id = t }) args.tag_ids
              ++ b.problem_tags;
        },
      )

abbrev pub is_author : User → Problem → Bool
is_author u p = elim p.author_id [ none ↦ false | some a ↦ u.id == a ]

-- `ALLOWED_TRANSITIONS`, with the predicates of its entries; no entry is None
abbrev pub allowed_transition : ProblemStatus → ProblemStatus → Option (User → Problem → Bool)
allowed_transition opened claimed = some (λ u p. true)
allowed_transition opened duplicate = some (λ u p. is_admin u.role)
allowed_transition claimed opened = some (λ u p. true)
allowed_transition claimed solved = some (λ u p. true)
allowed_transition solved accepted = some (λ u p. is_author u p || is_admin u.role)
allowed_transition solved opened = some (λ u p. is_author u p || is_admin u.role)
allowed_transition duplicate opened = some (λ u p. is_admin u.role)
allowed_transition accepted opened = some (λ u p. is_admin u.role)
allowed_transition _ _ = none

abbrev pub may_move : User → Problem → ProblemStatus → Bool
may_move u p target = elim (allowed_transition p.status target) [
  | none ↦ false
  | some test ↦ test u p
]

-- A problem that is moved.
abbrev pub moved : ℕ → ProblemStatus → Problem → Problem
moved now target p = record p { status = target; activity_at = some now }

abbrev pub write_problem : Problem → Board → Board
write_problem p b = record b { problems = put problem_key p b.problems }

-- `transition_status`
unfoldable pub transition_status : ℕ → ℕ → ProblemStatus → ℕ → Board → Outcome Problem × Board
transition_status now id target actor b = elim (lookup user_key actor b.users) [
  | none ↦ (err actor_missing, b)
  | some u ↦ elim (lookup problem_key id b.problems) [
    | none ↦ (err problem_missing, b)
    | some p ↦
        if may_move u p target
        then (ok (moved now target p), write_problem (moved now target p) b)
        else (err (forbidden_transition p.status target), b)
  ]
]

abbrev pub is_claim : ℕ → ℕ → Claim → Bool
is_claim problem user c = c.problem_id == problem && c.user_id == user

-- Somebody else's claim on the problem.
abbrev pub is_other_claim : ℕ → ℕ → Claim → Bool
is_other_claim problem user c = c.problem_id == problem && not (c.user_id == user)

abbrev pub reopened : Problem → Problem
reopened p = if problem_status_eq p.status claimed then record p { status = opened } else p

abbrev pub taken : ℕ → Problem → Problem
taken now p = record p {
  status = (if problem_status_eq p.status opened then claimed else p.status);
  activity_at = some now;
}

-- A claim is withdrawn: without another claim the problem is opened again.
abbrev unclaim : ℕ → Problem → Board → Board
unclaim user p b =
    let claims = filter (λ c. not (is_claim p.id user c)) b.claims in
    let problems =
      if count (is_other_claim p.id user) b.claims == 0
      then put problem_key (reopened p) b.problems
      else b.problems in
    record b { claims = claims; problems = problems }

abbrev claim : ℕ → ℕ → Problem → Board → Board
claim now user p b = record b {
  claims = record { problem_id = p.id; user_id = user } ∷ b.claims;
  problems = put problem_key (taken now p) b.problems;
}

-- `claim_problem`; the answer tells whether there is a claim now
unfoldable pub claim_problem : ℕ → ℕ → ℕ → Board → Outcome Bool × Board
claim_problem now id user b = elim (lookup problem_key id b.problems) [
  | none ↦ (err problem_missing, b)
  | some p ↦
      if any (is_claim p.id user) b.claims
      then (ok false, unclaim user p b)
      else (ok true, claim now user p b)
]

abbrev pub max_pinned : ℕ
max_pinned = 3

abbrev pub is_pin : Problem → Bool
is_pin p = p.is_pinned

-- `pin_problem`
unfoldable pub pin_problem : ℕ → Board → Outcome Problem × Board
pin_problem id b = elim (lookup problem_key id b.problems) [
  | none ↦ (err problem_missing, b)
  | some p ↦
      if p.is_pinned
      then (ok (record p { is_pinned = false }), write_problem (record p { is_pinned = false }) b)
      else if leb max_pinned (count is_pin b.problems)
      then (err pin_limit, b)
      else (ok (record p { is_pinned = true }), write_problem (record p { is_pinned = true }) b)
]

-- The column before, where the update sets it.
abbrev pub before {ℓ} : {A : Type ℓ} → A → Option A → Option A
before old none = none
before old (some new) = some old

abbrev pub or_else {ℓ} : {A : Type ℓ} → Option A → A → A
or_else none old = old
or_else (some new) old = new

-- The columns with their new values, that of the category being read.
unfoldable pub apply_updates : Problem → Fields → Option (Option ℕ) → Problem
apply_updates p updates category = record p {
  title = or_else updates.title p.title;
  description = or_else updates.description p.description;
  category_id = or_else category p.category_id;
}

abbrev pub is_set {ℓ} : {A : Type ℓ} → Option A → Bool
is_set none = false
is_set (some a) = true

-- `bool(snapshot)`
abbrev pub sets_any : Fields → Bool
sets_any f = is_set f.title || is_set f.description || is_set f.category_id

abbrev pub edited : ℕ → Problem → Fields → Option (Option ℕ) → Problem
edited now p updates category = record (apply_updates p updates category) { activity_at = some now }

-- `str` of a UUID, and `uuid.UUID` of a text, which raises ValueError where it is none.
module _ (show_uuid : ℕ → Text) (read_uuid : Text → Option ℕ) where
  abbrev pub shown : Option ℕ → Option CategoryValue
  shown none = none
  shown (some k) = some (str (show_uuid k))

  unfoldable pub snapshot_of : Problem → Fields → Fields
  snapshot_of p updates = record {
    title = before p.title updates.title;
    description = before p.description updates.description;
    category_id = before (shown p.category_id) updates.category_id;
  }

  abbrev read_value : CategoryValue → Option ℕ
  read_value (uuid k) = some k
  read_value (str s) = read_uuid s

  abbrev pub set_to : Option ℕ → Option (Option (Option ℕ))
  set_to none = none
  set_to (some k) = some (some (some k))

  -- The category of an update, if the update sets it; none where the text is no UUID.
  abbrev pub read_category : Option (Option CategoryValue) → Option (Option (Option ℕ))
  read_category none = some none
  read_category (some none) = some (some none)
  read_category (some (some v)) = set_to (read_value v)

  abbrev pub write_edit : ℕ → ℕ → ℕ → Fields → Option (Option ℕ) → Problem → Board → Board
  write_edit now id editor updates category p b =
      let entry : ProblemEditHistory = record {
        problem_id = id;
        editor_id = editor;
        snapshot = snapshot_of p updates;
      } in
      record (write_problem (edited now p updates category) b) { history = entry ∷ b.history }

  -- `update_problem`; the exception of a text that is no UUID rolls the transaction back
  unfoldable pub update_problem : ℕ → ℕ → ℕ → Fields → Board → Outcome Problem × Board
  update_problem now id editor updates b = elim (lookup problem_key id b.problems) [
    | none ↦ (err problem_missing, b)
    | some p ↦
        if not (sets_any (snapshot_of p updates))
        then (ok p, b)
        else elim (read_category updates.category_id) [
          | none ↦ (err badly_formed_uuid, b)
          | some c ↦ (ok (edited now p updates c), write_edit now id editor updates c p b)
        ]
  ]
