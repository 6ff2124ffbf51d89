-- ===== src/Notifications/Recipients.antt =====
-- The closure `_add` over `recipients` and `seen` that each fanout builds its recipients by.
pub mod Laws
use problem_bulletin.Prelude.{
  ℕ, Bool, not, Option, none, some, List, [], ◌∷◌, ◌++◌, if◌then◌else◌, any,
}
use problem_bulletin.Domain.{Party, is_party, Person, person_eq}

-- `key in seen`
abbrev pub in_people : Person → List Person → Bool
in_people p people = any (λ q. person_eq q p) people

pub record Collected : Type 0 where
  pub recipients : List Person
  pub seen : List Person

abbrev pub nobody : Collected
nobody = record { recipients = []; seen = [] }

-- `_add`
unfoldable pub add : Person → Person → Collected → Collected
add actor p c = if not (is_party p.kind) then c else if in_people p c.seen then c else record {
  recipients = (if person_eq p actor then c.recipients else c.recipients ++ p ∷ []);
  seen = p ∷ c.seen;
}

-- `if assignee_id is not None and assignee_type is not None: _add(...)`
abbrev pub pair : Option Party → Option ℕ → Option Person
pair none id = none
pair (some kind) none = none
pair (some kind) (some id) = some (record { kind = kind; id = id })

abbrev pub add_optional : Person → Option Person → Collected → Collected
add_optional actor none c = c
add_optional actor (some p) c = add actor p c

-- `for w in watchers: ...`
unfoldable pub add_all : Person → List Person → Collected → Collected
add_all actor [] c = c
add_all actor (w ∷ watchers) c = add_all actor watchers (add actor w c)

-- The recipients of a state change or a block: assignee, then watchers.
unfoldable pub watching : Person → Option Person → List Person → List Person
unfolding add_all add
watching actor assignee watchers =
    (add_all actor watchers (add_optional actor assignee nobody)).recipients

-- The recipients of a resolution or a cancellation: assignee, reporter, then watchers.
unfoldable pub involved : Person → Option Person → Option Person → List Person → List Person
unfolding add_all add
involved actor assignee reporter watchers =
    let named = add_optional actor reporter (add_optional actor assignee nobody) in
    (add_all actor watchers named).recipients
