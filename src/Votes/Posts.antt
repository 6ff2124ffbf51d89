-- ===== src/Votes/Posts.antt =====
-- The denormalised count of a post.
use problem_bulletin.Prelude.{
  ℕ, ◌≡◌, ◌∙◌, ap, ◌==◌, sym, inl, inr, none, some, ◌∷◌, arith, Bool-cases, Option-cases, ==_iff,
}
use problem_bulletin.Prelude.Table.{lookup, put, lookup-put, lookup_key}
use problem_bulletin.Domain.{Person}
use problem_bulletin.Votes.{tally, flip, SharePost, post_key, Board, toggle_vote}
use problem_bulletin.Votes.Toggle.{Once, flip-Toggles, tally_others}

-- Every post carries the number of its votes, and nobody has two votes for one post.
pub record IsCounted (b : Board) : Type 0 where
  pub counted :
      (k : ℕ) (p : SharePost) → lookup post_key k b.posts ≡ some p → p.upvotes ≡ tally k b.votes
  pub once : Once b.votes

toggle_vote_missing :
    (actor : Person) (id : ℕ) (b : Board)
    → lookup post_key id b.posts ≡ none
    → toggle_vote actor id b ≡ (none, b)
unfolding toggle_vote
toggle_vote_missing actor id b e = ground (arith, e)

toggle_vote_found :
    (actor : Person) (id : ℕ) (b : Board) (p : SharePost)
    → lookup post_key id b.posts ≡ some p
    → (let (voted, after) = flip id actor b.votes in
        toggle_vote actor id b ≡ (
          some (voted, tally id after),
          record {
            posts = put post_key (record p { upvotes = tally id after }) b.posts;
            votes = after;
            audit = (id, voted, tally id after) ∷ b.audit;
          },
        ))
unfolding toggle_vote
toggle_vote_found actor id b p e = ground (arith, e)

-- If every post carries the number of its votes and nobody has two votes for one post, both still
-- hold after `toggle_vote`, whoever toggles whichever post.
pub toggle_vote-IsCounted :
    (actor : Person) (id : ℕ) (b : Board) → IsCounted b → IsCounted (toggle_vote actor id b).1
toggle_vote-IsCounted actor id b h = elim (Option-cases (lookup post_key id b.posts)) [
  | inl e ↦ rw (toggle_vote_missing actor id b e) h
  | inr (p, e) ↦
      let after = (flip id actor b.votes).1 in
      let row : SharePost = record p { upvotes = tally id after } in
      let key : p.id ≡ id = lookup_key post_key id b.posts e in
      rw (toggle_vote_found actor id b p e) (record {
        counted = λ k q found. elim (Bool-cases (id == k)) [
          | inl same ↦
              let to : id ≡ k = (==_iff id k).0 same in
              let new : row ≡ q =
                ground (arith, found, lookup-put post_key k row b.posts, key, to, e) in
              ap (λ (r : SharePost). r.upvotes) (sym new) ∙ ap (λ j. tally j after) to
          | inr apart ↦
              let old : lookup post_key k b.posts ≡ some q =
                ground (arith, found, lookup-put post_key k row b.posts, key, apart) in
              h.counted k q old ∙ sym (tally_others id k actor b.votes apart)
        ];
        once = (flip-Toggles id actor b.votes h.once).once;
      })
]
