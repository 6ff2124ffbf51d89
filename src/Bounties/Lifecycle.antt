-- ===== src/Bounties/Lifecycle.antt =====
-- What the life cycle guarantees of a bounty.
use problem_bulletin.Prelude.{
  ℕ, ◌≡◌, ◌≢◌, ◌⊎◌, refl, inl, inr, Bool, true, false, ◌&&◌, Option, none, some, ◌∷◌, ◌==◌, arith,
  Option-cases, Bool-cases,
}
use mathlib.Core.Path.{subst}
use problem_bulletin.Prelude.Table.{lookup, put, lookup-put, lookup-cons}
use problem_bulletin.Domain.{Person}
use problem_bulletin.Bounties.{
  BountyStatus, open_bounty, claimed, awarded, withdrawn, Bounty, bounty_key, BountyAction, Ledger,
  Outcome, returned, refused, claim_action, unclaim_action, award_action, withdraw_action,
  Transition, claim, unclaim, award, withdraw, on_row, id_is, kind_is, is_user,
}

-- A claimant is recorded exactly while the bounty is claimed or awarded, with the time of the claim;
-- an award time exactly once it is awarded.
pub record IsSound (b : Bounty) : Type 0 where
  pub free :
      (b.status ≡ open_bounty) ⊎ (b.status ≡ withdrawn)
      → (b.claimant_id ≡ none) × (b.claimant_type ≡ none) × (b.claimed_at ≡ none)
  pub held :
      (b.status ≡ claimed) ⊎ (b.status ≡ awarded)
      → (b.claimant_id ≢ none) × (b.claimant_type ≢ none) × (b.claimed_at ≢ none)
  pub paid : b.status ≡ awarded → b.awarded_at ≢ none
  pub unpaid : b.status ≢ awarded → b.awarded_at ≡ none

abbrev pub AllSound : Ledger → Type 0
AllSound l = (k : ℕ) (b : Bounty) → lookup bounty_key k l.bounties ≡ some b → IsSound b

pub put-AllSound :
    (l : Ledger) (b : Bounty)
    → IsSound b
    → AllSound l
    → (k : ℕ) (c : Bounty) → lookup bounty_key k (put bounty_key b l.bounties) ≡ some c
    → IsSound c
put-AllSound l b s h k c found = elim (Bool-cases (b.id == k)) [
  | inr other ↦ h k c (ground (arith, lookup-put bounty_key k b l.bounties, other))
  | inl same ↦ elim (Option-cases (lookup bounty_key k l.bounties)) [
    | inl e ↦ ground (arith, lookup-put bounty_key k b l.bounties, same, e)
    | inr (d, e) ↦ subst IsSound (ground (arith, lookup-put bounty_key k b l.bounties, same, e)) s
  ]
]

pub cons-AllSound :
    (l : Ledger) (b : Bounty)
    → IsSound b
    → AllSound l
    → (k : ℕ) (c : Bounty) → lookup bounty_key k (b ∷ l.bounties) ≡ some c
    → IsSound c
cons-AllSound l b s h k c found = elim (Bool-cases (b.id == k)) [
  | inl same ↦ subst IsSound (ground (arith, lookup-cons bounty_key k b l.bounties)) s
  | inr other ↦ h k c (ground (arith, lookup-cons bounty_key k b l.bounties))
]

-- The state machine, written out: open to claimed and back, claimed to awarded, open to withdrawn.
abbrev pub next_status : Transition → BountyStatus → Option BountyStatus
next_status claim open_bounty = some claimed
next_status unclaim claimed = some open_bounty
next_status award claimed = some awarded
next_status withdraw open_bounty = some withdrawn
next_status _ _ = none

-- Who may: anyone claims, the claimant takes the claim back, the user that posted it does the rest.
abbrev pub may : Transition → Person → Bounty → Bool
may claim actor b = true
may unclaim actor b = id_is b.claimant_id actor.id && kind_is b.claimant_type actor.kind
may award actor b = is_user actor.kind && id_is b.poster_user_id actor.id
may withdraw actor b = is_user actor.kind && id_is b.poster_user_id actor.id

abbrev pub is_returned : Outcome → Bool
is_returned (returned b) = true
is_returned (refused e) = false

pub row_refused :
    (kind : Transition) (actor : Person) (now : ℕ) (b : Bounty) (l : Ledger)
    → (next_status kind b.status ≡ none) ⊎ (may kind actor b ≡ false)
    → (is_returned (on_row kind actor now b l).0 ≡ false) × ((on_row kind actor now b l).1 ≡ l)
unfolding on_row
row_refused claim actor now b l h = ground arith
row_refused unclaim actor now b l h = ground arith
row_refused award actor now b l h = ground arith
row_refused withdraw actor now b l h = ground arith

-- What a transition that goes through does: the row has the next status and is the same bounty
-- otherwise, and the ledger holds it with one audit row more.
pub record Moves (s : BountyStatus) (b : Bounty) (actor : Person) (l : Ledger)
    (r : Outcome × Ledger) : Type 0 where
  pub row : Bounty
  pub returns : r.0 ≡ returned row
  pub stored : r.1.bounties ≡ put bounty_key row l.bounties
  pub audited : (a : BountyAction) × (r.1.audit ≡ (a, b.id, actor) ∷ l.audit)
  pub status : row.status ≡ s
  pub same : (row.id ≡ b.id) × (row.points ≡ b.points) × (row.poster_user_id ≡ b.poster_user_id)
  pub sound : IsSound b → IsSound row

module _ (b : Bounty) where
  claim-IsSound :
      (actor : Person) (now : ℕ)
      → b.status ≡ open_bounty
      → IsSound b
      → IsSound (record b {
        claimant_id = some actor.id;
        claimant_type = some actor.kind;
        claimed_at = some now;
        status = claimed;
      })
  claim-IsSound actor now e h = record {
    free = λ f. ground arith;
    held = λ f. (ground arith, ground arith, ground arith);
    paid = λ f. ground arith;
    unpaid = λ f. h.unpaid (ground (arith, e));
  }

  unclaim-IsSound :
      b.status ≡ claimed
      → IsSound b
      → IsSound (record b {
        claimant_id = none;
        claimant_type = none;
        claimed_at = none;
        status = open_bounty;
      })
  unclaim-IsSound e h = record {
    free = λ f. (refl, refl, refl);
    held = λ f. ground arith;
    paid = λ f. ground arith;
    unpaid = λ f. h.unpaid (ground (arith, e));
  }

  award-IsSound :
      (now : ℕ)
      → b.status ≡ claimed
      → IsSound b
      → IsSound (record b { awarded_at = some now; status = awarded })
  award-IsSound now e h = record {
    free = λ f. ground arith;
    held = λ f. h.held (inl e);
    paid = λ f. ground arith;
    unpaid = λ f. ground (arith, f refl);
  }

  withdraw-IsSound : b.status ≡ open_bounty → IsSound b → IsSound (record b { status = withdrawn })
  withdraw-IsSound e h = record {
    free = λ f. h.free (inl e);
    held = λ f. ground arith;
    paid = λ f. ground arith;
    unpaid = λ f. h.unpaid (ground (arith, e));
  }

pub row-Moves :
    (kind : Transition) (actor : Person) (now : ℕ) (b : Bounty) (l : Ledger) (s : BountyStatus)
    → next_status kind b.status ≡ some s
    → may kind actor b ≡ true
    → Moves s b actor l (on_row kind actor now b l)
unfolding on_row
row-Moves claim actor now b l s step allowed =
    let e : b.status ≡ open_bounty = ground arith in
    record {
      row = record b {
        claimant_id = some actor.id;
        claimant_type = some actor.kind;
        claimed_at = some now;
        status = claimed;
      };
      returns = ground (arith, e);
      stored = ground (arith, e);
      audited = (claim_action, ground (arith, e));
      status = ground arith;
      same = (refl, refl, refl);
      sound = claim-IsSound b actor now e;
    }
row-Moves unclaim actor now b l s step allowed =
    let e : b.status ≡ claimed = ground arith in
    record {
      row = record b {
        claimant_id = none;
        claimant_type = none;
        claimed_at = none;
        status = open_bounty;
      };
      returns = ground (arith, e);
      stored = ground (arith, e);
      audited = (unclaim_action, ground (arith, e));
      status = ground arith;
      same = (refl, refl, refl);
      sound = unclaim-IsSound b e;
    }
row-Moves award actor now b l s step allowed =
    let e : b.status ≡ claimed = ground arith in
    record {
      row = record b { awarded_at = some now; status = awarded };
      returns = ground (arith, e);
      stored = ground (arith, e);
      audited = (award_action, ground (arith, e));
      status = ground arith;
      same = (refl, refl, refl);
      sound = award-IsSound b now e;
    }
row-Moves withdraw actor now b l s step allowed =
    let e : b.status ≡ open_bounty = ground arith in
    record {
      row = record b { status = withdrawn };
      returns = ground (arith, e);
      stored = ground (arith, e);
      audited = (withdraw_action, ground (arith, e));
      status = ground arith;
      same = (refl, refl, refl);
      sound = withdraw-IsSound b e;
    }
