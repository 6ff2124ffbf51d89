-- ===== src/Board/Comments/Threads.antt =====
-- Replies keep the comment that they reply to.
use problem_bulletin.Prelude.{
  ℕ, ◌≡◌, ◌==◌, refl, sym, ap, ◌∙◌, inl, inr, Bool, false, none, some, List, [], ◌∷◌, any, arith,
  Bool-cases,
}
use problem_bulletin.Prelude.Table.{lookup, put, remove, lookup-cons, lookup-put, lookup-remove}
use problem_bulletin.Board.Comments.{Comment, comment_key, is_reply_to}

-- A parent that a comment of the table names is in the table, on the same problem.
abbrev pub IsThreaded : List Comment → Type 0
IsThreaded comments =
    (k : ℕ) (c : Comment) (parent : ℕ)
    → lookup comment_key k comments ≡ some c
    → c.parent_comment_id ≡ some parent
    → (p : Comment) × (lookup comment_key parent comments ≡ some p) × (p.problem_id ≡ c.problem_id)

module _ (q c : Comment) (comments : List Comment)
    (found : lookup comment_key q.id comments ≡ some c)
    (parents : q.parent_comment_id ≡ c.parent_comment_id)
    (problems : q.problem_id ≡ c.problem_id) where
  -- A row after the write, and the row before it.
  back :
      (k : ℕ) (d : Comment)
      → lookup comment_key k (put comment_key q comments) ≡ some d
      → (e : Comment) × (lookup comment_key k comments ≡ some e)
        × (d.parent_comment_id ≡ e.parent_comment_id)
        × (d.problem_id ≡ e.problem_id)
  back k d at = elim (Bool-cases (q.id == k)) [
    | inl e ↦
        let here : q.id ≡ k = ground (arith, e) in
        let old : lookup comment_key k comments ≡ some c =
          ap (λ j. lookup comment_key j comments) (sym here) ∙ found in
        let new : some d ≡ some q =
          ground (arith, lookup-put comment_key k q comments, e, old, at) in
        let same : d ≡ q = cc in
        (
          c,
          old,
          ap (λ (x : Comment). x.parent_comment_id) same ∙ parents,
          ap (λ (x : Comment). x.problem_id) same ∙ problems,
        )
    | inr e ↦ (d, ground (arith, lookup-put comment_key k q comments, e, at), refl, refl)
  ]

  forth :
      (k : ℕ) (e : Comment)
      → lookup comment_key k comments ≡ some e
      → (d : Comment) × (lookup comment_key k (put comment_key q comments) ≡ some d)
        × (d.problem_id ≡ e.problem_id)
  forth k e at = elim (Bool-cases (q.id == k)) [
    | inl y ↦
        let here : q.id ≡ k = ground (arith, y) in
        let old : lookup comment_key k comments ≡ some c =
          ap (λ j. lookup comment_key j comments) (sym here) ∙ found in
        let both : some c ≡ some e = sym old ∙ at in
        let same : c ≡ e = cc in
        (
          q,
          ground (arith, lookup-put comment_key k q comments, y, old),
          problems ∙ ap (λ (x : Comment). x.problem_id) same,
        )
    | inr n ↦ (e, ground (arith, lookup-put comment_key k q comments, n, at), refl)
  ]

  -- A row is overwritten by one with the same parent and problem.
  pub put-IsThreaded : IsThreaded comments → IsThreaded (put comment_key q comments)
  put-IsThreaded h k d parent at of =
      let (e, before, same_parent, same_problem) = back k d at in
      let (p, there, agree) = h k e parent before (sym same_parent ∙ of) in
      let (p', there', agree') = forth parent p there in
      (p', there', agree' ∙ agree ∙ sym same_problem)

lookup_none :
    (test : Comment → Bool) (k : ℕ) (comments : List Comment) (c : Comment)
    → any test comments ≡ false
    → lookup comment_key k comments ≡ some c
    → test c ≡ false
unfolding lookup
lookup_none test k [] c bare found = absurd cc
lookup_none test k (d ∷ comments) c bare found = elim (Bool-cases (d.id == k)) [
  | inl e ↦ ground (arith, e, bare, found)
  | inr e ↦ lookup_none test k comments c (ground (arith, bare)) (ground (arith, e, found))
]

-- A comment without replies is removed.
pub remove-IsThreaded :
    (id : ℕ) (comments : List Comment)
    → any (is_reply_to id) comments ≡ false
    → IsThreaded comments
    → IsThreaded (remove comment_key id comments)
remove-IsThreaded id comments bare h k d parent at of =
    let before : lookup comment_key k comments ≡ some d =
      ground (arith, lookup-remove comment_key k id comments, at) in
    let (p, there, agree) = h k d parent before of in
    let other = lookup_none (is_reply_to id) k comments d bare before in
    let apart : (id == parent) ≡ false = ground (arith, other, of) in
    (p, ground (arith, lookup-remove comment_key parent id comments, apart, there), agree)

-- A new comment is a reply to one of the table on its problem, or to none.
pub cons-IsThreaded :
    (c : Comment) (comments : List Comment)
    → lookup comment_key c.id comments ≡ none
    → ((parent : ℕ)
        → c.parent_comment_id ≡ some parent
        → (p : Comment) × (lookup comment_key parent comments ≡ some p)
          × (p.problem_id ≡ c.problem_id))
    → IsThreaded comments
    → IsThreaded (c ∷ comments)
cons-IsThreaded c comments fresh its h k d parent at of = elim (Bool-cases (c.id == k)) [
  | inl e ↦
      let new : some c ≡ some d = ground (arith, lookup-cons comment_key k c comments, e, at) in
      let same : c ≡ d = cc in
      let (p, there, agree) = its parent (ap (λ (x : Comment). x.parent_comment_id) same ∙ of) in
      (p, still parent p there, agree ∙ ap (λ (x : Comment). x.problem_id) same)
  | inr e ↦
      let before : lookup comment_key k comments ≡ some d =
        ground (arith, lookup-cons comment_key k c comments, e, at) in
      let (p, there, agree) = h k d parent before of in (p, still parent p there, agree)
]
  where
    still :
        (j : ℕ) (p : Comment)
        → lookup comment_key j comments ≡ some p
        → lookup comment_key j (c ∷ comments) ≡ some p
    still j p there = elim (Bool-cases (c.id == j)) [
      | inl e ↦
          let here : c.id ≡ j = ground (arith, e) in
          let gone : lookup comment_key j comments ≡ none =
            ap (λ i. lookup comment_key i comments) (sym here) ∙ fresh in
          absurd cc
      | inr e ↦ ground (arith, lookup-cons comment_key j c comments, e, there)
    ]
