-- ===== src/Tickets/Links/Pairs.antt =====
-- `link` writes both rows of a link.
use mathlib.Core.Path.{subst}
use problem_bulletin.Prelude.{
  ℕ, ◌⊎◌, ◌≡◌, ◌≤◌, true, false, some, inl, inr, List, ◌∷◌, refl, arith, count, Bool-cases,
  Option-cases,
}
use problem_bulletin.Domain.{TicketLink, TicketLinkType, Person, Context}
use problem_bulletin.Tickets.Links.{link_inverse, is_link, has_link, new_link, add_inverse}
use problem_bulletin.Tickets.Links.Laws.{IsPaired, inverse_sym, absent}

abbrev Paired : List TicketLink → Type 0
Paired links =
    (source target : ℕ) (lt inverse : TicketLinkType)
    → link_inverse lt ≡ some inverse
    → has_link source target lt links ≡ true
    → has_link target source inverse links ≡ true

abbrev Once : List TicketLink → Type 0
Once links = (source target : ℕ) (lt : TicketLinkType) → count (is_link source target lt) links ≤ 1

module _ (actor : Person) (ctx : Context) where
  new_ends :
      (a b s t : ℕ) (m l : TicketLinkType)
      → is_link s t l (new_link a b m actor ctx) ≡ true
      → (s ≡ a) × (t ≡ b) × (l ≡ m)
  new_ends a b s t m l e = ground arith

  new_is : (a b : ℕ) (m : TicketLinkType) → is_link a b m (new_link a b m actor ctx) ≡ true
  new_is a b m = ground arith

  cons-Once :
      (a b : ℕ) (m : TicketLinkType) (links : List TicketLink)
      → has_link a b m links ≡ false
      → Once links
      → Once (new_link a b m actor ctx ∷ links)
  cons-Once a b m links fresh h s t l =
      elim (Bool-cases (is_link s t l (new_link a b m actor ctx))) [
        | inl e ↦
            let (es, et, el) = new_ends a b s t m l e in
            let gone : has_link s t l links ≡ false = rw (es, et, el) fresh in
            rw e (omega (arith, absent s t l links gone))
        | inr e ↦ rw e (omega (arith, h s t l))
      ]

  has_cons :
      (a b s t : ℕ) (m l : TicketLinkType) (links : List TicketLink)
      → has_link s t l links ≡ true
      → has_link s t l (new_link a b m actor ctx ∷ links) ≡ true
  unfolding has_link
  has_cons a b s t m l links e = ground (arith, e)

  has_new :
      (a b : ℕ) (m : TicketLinkType) (links : List TicketLink)
      → has_link a b m (new_link a b m actor ctx ∷ links) ≡ true
  unfolding has_link
  has_new a b m links = rw (new_is a b m) refl

  cons-cases :
      (a b s t : ℕ) (m l : TicketLinkType) (links : List TicketLink)
      → has_link s t l (new_link a b m actor ctx ∷ links) ≡ true
      → ((s ≡ a) × (t ≡ b) × (l ≡ m)) ⊎ (has_link s t l links ≡ true)
  unfolding has_link
  cons-cases a b s t m l links e = elim (Bool-cases (is_link s t l (new_link a b m actor ctx))) [
    | inl f ↦ inl (new_ends a b s t m l f)
    | inr f ↦ inr (ground (arith, f))
  ]

  cons-Paired :
      (a b : ℕ) (m : TicketLinkType) (links : List TicketLink)
      → ((i : TicketLinkType)
          → link_inverse m ≡ some i
          → has_link b a i (new_link a b m actor ctx ∷ links) ≡ true)
      → Paired links
      → Paired (new_link a b m actor ctx ∷ links)
  cons-Paired a b m links k h s t l inverse e found = elim (cons-cases a b s t m l links found) [
    | inl (es, et, el) ↦
        let own : link_inverse m ≡ some inverse = subst (λ n. link_inverse n ≡ some inverse) el e in
        rw (es, et) (k inverse own)
    | inr old ↦ has_cons a b t s m inverse links (h s t l inverse e old)
  ]

  pair-Paired :
      (a b : ℕ) (m i : TicketLinkType) (links : List TicketLink)
      → link_inverse m ≡ some i
      → Paired links
      → Paired (new_link b a i actor ctx ∷ new_link a b m actor ctx ∷ links)
  pair-Paired a b m i links inv h s t l inverse e found =
      let row = new_link a b m actor ctx in
      elim (cons-cases b a s t i l (row ∷ links) found) [
        | inl (es, et, el) ↦
            let back : inverse ≡ m = ground (arith, inverse_sym m i inv, el, e) in
            rw (es, et, back) (has_cons b a a b i m (row ∷ links) (has_new a b m links))
        | inr left ↦ elim (cons-cases a b s t m l links left) [
          | inl (es, et, el) ↦
              let to : inverse ≡ i = ground (arith, inv, el, e) in
              rw (es, et, to) (has_new b a i (row ∷ links))
          | inr old ↦
              has_cons b a t s i inverse (row ∷ links)
                (has_cons a b t s m inverse links (h s t l inverse e old))
        ]
      ]

  -- Both rows in, whether or not the second was there.
  pub both-IsPaired :
      (source target : ℕ) (lt : TicketLinkType) (links : List TicketLink)
      → has_link source target lt links ≡ false
      → IsPaired links
      → IsPaired
          (add_inverse source target lt actor ctx (new_link source target lt actor ctx ∷ links))
  unfolding add_inverse
  both-IsPaired source target lt links fresh h =
      let row = new_link source target lt actor ctx in
      let one = cons-Once source target lt links fresh h.once in
      elim (Option-cases (link_inverse lt)) [
        | inl none_inverse ↦
            rw (add_inverse, none_inverse)
              (record {
                paired = cons-Paired source target lt links (λ i e. cc) h.paired;
                once = one;
              })
        | inr (i, e) ↦ elim (Bool-cases (has_link target source i (row ∷ links))) [
          | inl there ↦
              rw (add_inverse, e, there)
                (record {
                  paired =
                      cons-Paired source target lt links (λ j f. ground (arith, there, e, f))
                        h.paired;
                  once = one;
                })
          | inr new ↦
              rw (add_inverse, e, new)
                (record {
                  paired = pair-Paired source target lt i links e h.paired;
                  once = cons-Once target source i (row ∷ links) new one;
                })
        ]
      ]
