-- ===== src/Votes/Toggle.antt =====
-- What a toggle does to the votes.
use problem_bulletin.Prelude.{
  ℕ, ◌+◌, ◌≤◌, ◌≡◌, ◌==◌, sym, ◌∙◌, ltb, inl, inr, Bool, true, false, not, ◌&&◌, List, [], ◌∷◌,
  count, arith, if◌then◌else◌, Bool-cases,
}
use problem_bulletin.Domain.{Person, person_eq, party_eq_iff}
use problem_bulletin.Votes.{Vote, is_vote, drop_vote, has_vote, tally, flip}

-- `uq_...`: nobody has two votes for one target.
abbrev pub Once : List Vote → Type 0
Once votes = (target : ℕ) (voter : Person) → count (is_vote target voter) votes ≤ 1

vote_ends :
    (target other : ℕ) (voter who : Person) (v : Vote)
    → is_vote target voter v ≡ true
    → is_vote other who v ≡ (target == other && person_eq voter who)
vote_ends target other voter who v e = ground (
  arith,
  party_eq_iff v.voter.kind voter.kind,
  party_eq_iff v.voter.kind who.kind,
  party_eq_iff voter.kind who.kind,
)

count-drop_vote :
    (target other : ℕ) (voter who : Person) (votes : List Vote)
    → count (is_vote other who) (drop_vote target voter votes)
        + (if has_vote target voter votes && (target == other && person_eq voter who) then 1 else 0)
      ≡ count (is_vote other who) votes
unfolding drop_vote has_vote
count-drop_vote target other voter who [] = ground arith
count-drop_vote target other voter who (v ∷ votes) = elim (Bool-cases (is_vote target voter v)) [
  | inl e ↦ rw (e, vote_ends target other voter who v e) (ground arith)
  | inr e ↦ rw e (ground (arith, count-drop_vote target other voter who votes))
]

tally-drop_vote :
    (target other : ℕ) (voter : Person) (votes : List Vote)
    → tally other (drop_vote target voter votes)
        + (if has_vote target voter votes && target == other then 1 else 0)
      ≡ tally other votes
unfolding drop_vote has_vote
tally-drop_vote target other voter [] = ground arith
tally-drop_vote target other voter (v ∷ votes) = elim (Bool-cases (is_vote target voter v)) [
  | inl e ↦ let to : v.target ≡ target = ground arith in rw (e, to) (ground arith)
  | inr e ↦ rw e (ground (arith, tally-drop_vote target other voter votes))
]

has_vote-count :
    (target : ℕ) (voter : Person) (votes : List Vote)
    → has_vote target voter votes ≡ ltb 0 (count (is_vote target voter) votes)
unfolding has_vote
has_vote-count target voter [] = ground arith
has_vote-count target voter (v ∷ votes) = ground (arith, has_vote-count target voter votes)

-- Is it the vote that is toggled?
abbrev pub is_same : ℕ → Person → ℕ → Person → Bool
is_same target voter other who = target == other && person_eq voter who

is_same_eq :
    (target other : ℕ) (voter who : Person)
    → is_same target voter other who ≡ true
    → (target ≡ other) × (voter ≡ who)
is_same_eq target other voter who e = ground (arith, party_eq_iff voter.kind who.kind)

is_same_refl : (target : ℕ) (voter : Person) → is_same target voter target voter ≡ true
is_same_refl target voter = ground (arith, party_eq_iff voter.kind voter.kind)

flip_own :
    (target : ℕ) (voter : Person) (votes : List Vote)
    → Once votes
    → count (is_vote target voter) (flip target voter votes).1
      ≡ (if has_vote target voter votes then 0 else 1)
unfolding flip
flip_own target voter votes once =
    let self = is_same_refl target voter in
    let new : is_vote target voter (record { target = target; voter = voter }) ≡ true = self in
    elim (Bool-cases (has_vote target voter votes)) [
      | inl e ↦ rw e (
          ground (
            arith,
            count-drop_vote target target voter voter votes,
            e,
            self,
            once target voter,
            has_vote-count target voter votes,
          ))
      | inr e ↦ rw (e, new) (ground (arith, e, has_vote-count target voter votes))
    ]

flip_others :
    (target other : ℕ) (voter who : Person) (votes : List Vote)
    → is_same target voter other who ≡ false
    → count (is_vote other who) (flip target voter votes).1 ≡ count (is_vote other who) votes
unfolding flip
flip_others target other voter who votes apart = elim (Bool-cases (has_vote target voter votes)) [
  | inl e ↦ rw e (ground (arith, count-drop_vote target other voter who votes, e, apart))
  | inr e ↦ rw (e, apart) (omega arith)
]

flip-Once :
    (target other : ℕ) (voter who : Person) (votes : List Vote)
    → Once votes
    → count (is_vote other who) (flip target voter votes).1 ≤ 1
flip-Once target other voter who votes once = elim (Bool-cases (is_same target voter other who)) [
  | inl same ↦
      let (eo, ew) = is_same_eq target other voter who same in
      rw (sym eo, sym ew) (ground (arith, flip_own target voter votes once))
  | inr apart ↦ rw (flip_others target other voter who votes apart) (once other who)
]

flip-tally :
    (target : ℕ) (voter : Person) (votes : List Vote)
    → tally target (flip target voter votes).1 + (if has_vote target voter votes then 1 else 0)
      ≡ tally target votes + (if has_vote target voter votes then 0 else 1)
unfolding flip
flip-tally target voter votes = elim (Bool-cases (has_vote target voter votes)) [
  | inl e ↦ rw e (ground (arith, tally-drop_vote target target voter votes, e))
  | inr e ↦ rw e (ground arith)
]

flip-active :
    (target : ℕ) (voter : Person) (votes : List Vote)
    → (flip target voter votes).0 ≡ not (has_vote target voter votes)
unfolding flip
flip-active target voter votes = ground arith

-- What a toggle is to do to the votes, and to answer.
pub record Toggles (target : ℕ) (voter : Person) (votes : List Vote) (r : Bool × List Vote)
    : Type 0 where
  pub active : r.0 ≡ not (has_vote target voter votes)
  pub now : has_vote target voter r.1 ≡ r.0
  pub others :
      (other : ℕ) (who : Person)
      → is_same target voter other who ≡ false
      → has_vote other who r.1 ≡ has_vote other who votes
  pub total :
      tally target r.1 + (if r.0 then 0 else 1) ≡ tally target votes + (if r.0 then 1 else 0)
  pub once : Once r.1

-- If nobody has two votes for one target, a toggle adds the voter's vote or takes it back, and
-- answers which; every other vote stays, the count of the target goes up or down by one
-- accordingly, and still nobody has two votes for one target.
pub flip-Toggles :
    (target : ℕ) (voter : Person) (votes : List Vote)
    → Once votes
    → Toggles target voter votes (flip target voter votes)
flip-Toggles target voter votes once = record {
  active = flip-active target voter votes;
  now = ground (
    arith,
    flip-active target voter votes,
    flip_own target voter votes once,
    has_vote-count target voter (flip target voter votes).1,
  );
  others = λ other who apart.
      has_vote-count other who (flip target voter votes).1
      ∙ rw (flip_others target other voter who votes apart) (sym (has_vote-count other who votes));
  total = ground (arith, flip-active target voter votes, flip-tally target voter votes);
  once = λ other who. flip-Once target other voter who votes once;
}

-- If nobody has two votes for one target: after the same toggle twice
-- everybody has the votes of before, and the target has the count of before.
pub flip_twice :
    (target : ℕ) (voter : Person) (votes : List Vote)
    → Once votes
    → (let again = flip target voter (flip target voter votes).1 in
        ((other : ℕ) (who : Person) → has_vote other who again.1 ≡ has_vote other who votes)
        × (tally target again.1 ≡ tally target votes))
flip_twice target voter votes once =
    let one = flip-Toggles target voter votes once in
    let two = flip-Toggles target voter (flip target voter votes).1 one.once in
    (
      λ other who. elim (Bool-cases (is_same target voter other who)) [
        | inl same ↦
            let (eo, ew) = is_same_eq target other voter who same in
            rw (sym eo, sym ew) (ground (arith, one.active, one.now, two.active, two.now))
        | inr apart ↦ two.others other who apart ∙ one.others other who apart
      ],
      ground (arith, one.active, one.now, two.active, one.total, two.total),
    )

pub tally_others :
    (target other : ℕ) (voter : Person) (votes : List Vote)
    → (target == other) ≡ false
    → tally other (flip target voter votes).1 ≡ tally other votes
unfolding flip
tally_others target other voter votes apart = elim (Bool-cases (has_vote target voter votes)) [
  | inl e ↦ rw e (ground (arith, tally-drop_vote target other voter votes, e, apart))
  | inr e ↦ rw (e, apart) (omega arith)
]
