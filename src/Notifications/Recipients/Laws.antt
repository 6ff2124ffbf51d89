-- ===== src/Notifications/Recipients/Laws.antt =====
-- Who is among the recipients.
use problem_bulletin.Prelude.{
  ℕ, ◌≡◌, ◌↔◌, ◌+◌, Bool, true, false, not, ◌&&◌, ◌||◌, Option, none, some, List, [], ◌∷◌, ◌++◌,
  arith, if◌then◌else◌, count,
}
use problem_bulletin.Domain.{is_party, Person, person_eq, party_eq_iff}
use problem_bulletin.Notifications.Recipients.{
  in_people, Collected, nobody, add, add_optional, add_all, watching, involved,
}

pub person_eq_iff : (p q : Person) → (person_eq p q ≡ true) ↔ (p ≡ q)
person_eq_iff p q = ground (arith, party_eq_iff p.kind q.kind)

-- How often a person stands in a list.
abbrev pub times : Person → List Person → ℕ
times p people = count (λ q. person_eq q p) people

pub times-append : (p : Person) (xs ys : List Person) → times p (xs ++ ys) ≡ times p xs + times p ys
times-append p [] ys = omega arith
times-append p (x ∷ xs) ys = ground (arith, times-append p xs ys)

-- Everyone seen but the actor is a recipient, once, and nobody else is.
abbrev Exact : Person → Collected → Type 0
Exact actor c =
    (p : Person)
    → times p c.recipients ≡ (if not (person_eq p actor) && in_people p c.seen then 1 else 0)

add-Exact : (actor p : Person) (c : Collected) → Exact actor c → Exact actor (add actor p c)
unfolding add
add-Exact actor p c h q = ground (
  arith,
  h q,
  times-append q c.recipients (p ∷ []),
  person_eq_iff p q,
  person_eq_iff p actor,
  person_eq_iff q actor,
)

in_people-add :
    (actor p q : Person) (c : Collected)
    → in_people q (add actor p c).seen ≡ (is_party p.kind && person_eq p q || in_people q c.seen)
unfolding add
in_people-add actor p q c = ground (arith, person_eq_iff p q)

add_all-Exact :
    (actor : Person) (ws : List Person) (c : Collected)
    → Exact actor c
    → Exact actor (add_all actor ws c)
unfolding add_all
add_all-Exact actor [] c h = h
add_all-Exact actor (w ∷ ws) c h = add_all-Exact actor ws (add actor w c) (add-Exact actor w c h)

in_people-add_all :
    (actor q : Person) (ws : List Person) (c : Collected)
    → in_people q (add_all actor ws c).seen
      ≡ (is_party q.kind && in_people q ws || in_people q c.seen)
unfolding add_all
in_people-add_all actor q [] c = ground arith
in_people-add_all actor q (w ∷ ws) c = ground (
  arith,
  in_people-add_all actor q ws (add actor w c),
  in_people-add actor w q c,
  person_eq_iff w q,
)

-- `p` is named as the assignee or the reporter.
abbrev pub is_named : Person → Option Person → Bool
is_named p none = false
is_named p (some q) = person_eq q p

add_optional-Exact :
    (actor : Person) (o : Option Person) (c : Collected)
    → Exact actor c
    → Exact actor (add_optional actor o c)
add_optional-Exact actor none c h = h
add_optional-Exact actor (some p) c h = add-Exact actor p c h

in_people-add_optional :
    (actor q : Person) (o : Option Person) (c : Collected)
    → in_people q (add_optional actor o c).seen
      ≡ (is_party q.kind && is_named q o || in_people q c.seen)
in_people-add_optional actor q none c = ground arith
in_people-add_optional actor q (some p) c =
    ground (arith, in_people-add actor p q c, person_eq_iff p q)

nobody-Exact : (actor : Person) → Exact actor nobody
nobody-Exact actor p = ground arith

-- Among the recipients of a state change or a block stands, exactly once, everyone who is the
-- assignee or a watcher, has the type user or agent, and is not the actor; and nobody else.
pub watching_exact :
    (actor : Person) (assignee : Option Person) (watchers : List Person) (p : Person)
    → times p (watching actor assignee watchers) ≡ (
        if not (person_eq p actor)
          && is_party p.kind
          && (is_named p assignee || in_people p watchers)
        then 1
        else 0)
unfolding watching
watching_exact actor assignee watchers p =
    let c = add_optional actor assignee nobody in
    let exact =
      add_all-Exact actor watchers c
        (add_optional-Exact actor assignee nobody (nobody-Exact actor)) in
    ground (
      arith,
      exact p,
      in_people-add_all actor p watchers c,
      in_people-add_optional actor p assignee nobody,
    )

-- Those of a resolution or a cancellation likewise, with the reporter.
pub involved_exact :
    (actor : Person) (assignee reporter : Option Person) (watchers : List Person) (p : Person)
    → times p (involved actor assignee reporter watchers) ≡ (
        if not (person_eq p actor)
          && is_party p.kind
          && (is_named p assignee || is_named p reporter || in_people p watchers)
        then 1
        else 0)
unfolding involved
involved_exact actor assignee reporter watchers p =
    let a = add_optional actor assignee nobody in
    let b = add_optional actor reporter a in
    let exact = add_all-Exact actor watchers b (
      add_optional-Exact actor reporter a
        (add_optional-Exact actor assignee nobody (nobody-Exact actor))) in
    ground (
      arith,
      exact p,
      in_people-add_all actor p watchers b,
      in_people-add_optional actor p reporter a,
      in_people-add_optional actor p assignee nobody,
    )
