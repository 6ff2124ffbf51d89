-- ===== src/Bounties.antt =====
-- app/services/bounties.py and app/models/bounty.py: the bounty life cycle.
pub mod Lifecycle
pub mod Machine
use problem_bulletin.Prelude.{
  ℕ, Bool, true, false, not, ◌&&◌, ◌||◌, Option, none, some, List, [], ◌∷◌, ◌==◌, if◌then◌else◌,
}
use problem_bulletin.Prelude.Table.{lookup, put}
use problem_bulletin.Prelude.Text.{Text}
use problem_bulletin.Domain.{Party, user, party_eq, Person, person_eq}

pub data BountyStatus : Type 0 where
  open_bounty claimed awarded withdrawn : BountyStatus

pub record Bounty : Type 0 where
  pub id : ℕ
  pub title : Text
  pub description : Text
  pub points : ℕ
  pub status : BountyStatus
  pub poster_user_id : Option ℕ
  pub ticket_id : Option ℕ
  pub problem_id : Option ℕ
  pub claimant_id : Option ℕ
  pub claimant_type : Option Party
  pub claimed_at : Option ℕ
  pub awarded_at : Option ℕ

abbrev pub bounty_key : Bounty → ℕ
bounty_key b = b.id

-- The audit rows of a bounty, by action.
pub data BountyAction : Type 0 where
  create_action claim_action unclaim_action award_action withdraw_action : BountyAction

pub record Ledger : Type 0 where
  pub bounties : List Bounty
  pub audit : List (BountyAction × ℕ × Person)

pub data Refusal : Type 0 where
  only_users_post bounty_not_found not_open not_claimed only_claimant only_poster : Refusal

pub data Outcome : Type 0 where
  returned : Bounty → Outcome
  refused : Refusal → Outcome

-- `_actor_type_str(actor) != "user"`
abbrev pub is_user : Party → Bool
is_user user = true
is_user _ = false

-- `o == k`, for a nullable id
abbrev pub id_is : Option ℕ → ℕ → Bool
id_is none k = false
id_is (some j) k = j == k

abbrev pub kind_is : Option Party → Party → Bool
kind_is none k = false
kind_is (some j) k = party_eq j k

-- The row is flushed and `_record` writes the audit row.
abbrev pub settle : Ledger → Bounty → BountyAction → Person → Outcome × Ledger
settle l b action actor = (
  returned b,
  record { bounties = put bounty_key b l.bounties; audit = (action, b.id, actor) ∷ l.audit },
)

-- `create_bounty`; the CHECK on `points` is the database's
unfoldable pub create_bounty :
    Person → ℕ → Text → Text → ℕ → Option ℕ → Option ℕ → Ledger → Outcome × Ledger
create_bounty actor new_id title description points ticket problem l =
    let row : Bounty = record {
      id = new_id;
      title = title;
      description = description;
      points = points;
      status = open_bounty;
      poster_user_id = some actor.id;
      ticket_id = ticket;
      problem_id = problem;
      claimant_id = none;
      claimant_type = none;
      claimed_at = none;
      awarded_at = none;
    } in
    if not (is_user actor.kind) then (refused only_users_post, l) else (
      returned row,
      record { bounties = row ∷ l.bounties; audit = (create_action, new_id, actor) ∷ l.audit },
    )

-- The body of each transition on the locked row.
pub data Transition : Type 0 where
  claim unclaim award withdraw : Transition

abbrev is_open : BountyStatus → Bool
is_open open_bounty = true
is_open _ = false

abbrev is_claimed : BountyStatus → Bool
is_claimed claimed = true
is_claimed _ = false

unfoldable pub claim_row : Person → ℕ → Bounty → Ledger → Outcome × Ledger
claim_row actor now b l =
    if not (is_open b.status)
    then (refused not_open, l)
    else settle l
        (record b {
          claimant_id = some actor.id;
          claimant_type = some actor.kind;
          claimed_at = some now;
          status = claimed;
        })
        claim_action actor

unfoldable pub unclaim_row : Person → Bounty → Ledger → Outcome × Ledger
unclaim_row actor b l =
    if not (is_claimed b.status)
    then (refused not_claimed, l)
    else if not (id_is b.claimant_id actor.id) || not (kind_is b.claimant_type actor.kind)
    then (refused only_claimant, l)
    else settle l
        (record b {
          claimant_id = none;
          claimant_type = none;
          claimed_at = none;
          status = open_bounty;
        })
        unclaim_action actor

unfoldable pub award_row : Person → ℕ → Bounty → Ledger → Outcome × Ledger
award_row actor now b l =
    if not (is_user actor.kind) || not (id_is b.poster_user_id actor.id)
    then (refused only_poster, l)
    else if not (is_claimed b.status)
    then (refused not_claimed, l)
    else settle l (record b { awarded_at = some now; status = awarded }) award_action actor

unfoldable pub withdraw_row : Person → Bounty → Ledger → Outcome × Ledger
withdraw_row actor b l =
    if not (is_user actor.kind) || not (id_is b.poster_user_id actor.id)
    then (refused only_poster, l)
    else if not (is_open b.status)
    then (refused not_open, l)
    else settle l (record b { status = withdrawn }) withdraw_action actor

unfoldable pub on_row : Transition → Person → ℕ → Bounty → Ledger → Outcome × Ledger
unfolding claim_row unclaim_row award_row withdraw_row
on_row claim actor now b l = claim_row actor now b l
on_row unclaim actor now b l = unclaim_row actor b l
on_row award actor now b l = award_row actor now b l
on_row withdraw actor now b l = withdraw_row actor b l

-- `claim`, `unclaim`, `award`, `withdraw`: `_locked` and the body
unfoldable pub transition : Transition → Person → ℕ → ℕ → Ledger → Outcome × Ledger
unfolding on_row
transition kind actor now id l = elim (lookup bounty_key id l.bounties) [
  | none ↦ (refused bounty_not_found, l)
  | some b ↦ on_row kind actor now b l
]
