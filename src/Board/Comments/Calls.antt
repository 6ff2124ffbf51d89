-- ===== src/Board/Comments/Calls.antt =====
-- The calls of the service, and the threads after them.
use mathlib.Core.Path.{subst}
use problem_bulletin.Prelude.{
  ℕ, ◌≡◌, ◌==◌, refl, sym, ap, ◌∙◌, inl, inr, true, not, ◌&&◌, Option, none, some, List, any, arith,
  Bool-cases, Option-cases,
}
use problem_bulletin.Prelude.Table.{lookup, lookup_key}
use problem_bulletin.Prelude.Text.{Text}
use problem_bulletin.Board.{User, is_admin}
use problem_bulletin.Board.Comments.{
  Comment, comment_key, CommentCreate, same_id, check_parent, against, new_comment, create_comment,
  edit_comment, is_reply_to, tombstone, delete_comment,
}
use problem_bulletin.Board.Comments.Threads.{
  IsThreaded, put-IsThreaded, remove-IsThreaded, cons-IsThreaded,
}

checked :
    (problem : ℕ) (solution : Option ℕ) (parent : ℕ) (comments : List Comment)
    → check_parent problem solution (some parent) comments ≡ none
    → (p : Comment) × (lookup comment_key parent comments ≡ some p) × (p.problem_id ≡ problem)
checked problem solution parent comments h =
    elim (Option-cases (lookup comment_key parent comments)) [
      | inl e ↦ absurd (refused (ap (against problem solution) (sym e) ∙ h))
      | inr (p, e) ↦ (p, e, agrees p (ap (against problem solution) (sym e) ∙ h))
    ]
  where
    refused : against problem solution none ≡ none → ⊥
    refused k = cc

    agrees : (p : Comment) → against problem solution (some p) ≡ none → p.problem_id ≡ problem
    agrees p k = elim (Bool-cases (p.problem_id == problem)) [
      | inl e ↦ ground (arith, e)
      | inr e ↦ absurd (ground (arith, e, k))
    ]

module _ (sanitize : Text → Text) (comments : List Comment) where
  at_key :
      (id : ℕ) (c : Comment)
      → lookup comment_key id comments ≡ some c
      → lookup comment_key c.id comments ≡ some c
  at_key id c e =
      subst (λ k. lookup comment_key k comments ≡ some c)
        (sym (lookup_key comment_key id comments e)) e

  create-IsThreaded :
      (now id problem : ℕ) (solution : Option ℕ) (user : ℕ) (args : CommentCreate)
      → lookup comment_key id comments ≡ none
      → IsThreaded comments
      → IsThreaded (create_comment sanitize now id problem solution user args comments).1
  unfolding create_comment
  create-IsThreaded now id problem solution user args fresh h =
      elim (Option-cases (check_parent problem solution args.parent_comment_id comments)) [
        | inr (e, bad) ↦ rw (create_comment, bad) h
        | inl fine ↦
            rw (create_comment, fine)
              (cons-IsThreaded (new_comment sanitize now id problem solution user args) comments
                fresh
                (λ parent of.
                  checked problem solution parent comments
                    (ap (λ o. check_parent problem solution o comments) (sym of) ∙ fine))
                h)
      ]

  edit-IsThreaded :
      (id : ℕ) (actor : User) (body : Text)
      → IsThreaded comments
      → IsThreaded (edit_comment sanitize id actor body comments).1
  unfolding edit_comment
  edit-IsThreaded id actor body h = elim (Option-cases (lookup comment_key id comments)) [
    | inl e ↦ rw (edit_comment, e) h
    | inr (c, e) ↦ elim (Bool-cases (same_id c.author_id (some actor.id))) [
      | inr refused_it ↦ rw (edit_comment, e, refused_it) h
      | inl hers ↦
          rw (edit_comment, e, hers)
            (put-IsThreaded (record c { body = sanitize body; is_edited = true }) c comments
              (at_key id c e) refl refl h)
    ]
  ]

  delete-IsThreaded :
      (id : ℕ) (actor : User)
      → IsThreaded comments
      → IsThreaded (delete_comment id actor comments).1
  unfolding delete_comment
  delete-IsThreaded id actor h = elim (Option-cases (lookup comment_key id comments)) [
    | inl e ↦ rw (delete_comment, e) h
    | inr (c, e) ↦
        elim (Bool-cases (not (same_id c.author_id (some actor.id)) && not (is_admin actor.role))) [
          | inl refused_it ↦ rw (delete_comment, e, refused_it) h
          | inr may ↦ elim (Bool-cases (any (is_reply_to c.id) comments)) [
            | inl replies ↦
                rw (delete_comment, e, may, replies)
                  (put-IsThreaded (tombstone c) c comments (at_key id c e) refl refl h)
            | inr bare ↦ rw (delete_comment, e, may, bare) (remove-IsThreaded c.id comments bare h)
          ]
        ]
  ]

-- What the clients of the service do.
pub data Call : Type 0 where
  create : ℕ → ℕ → ℕ → Option ℕ → ℕ → CommentCreate → Call
  edit : ℕ → User → Text → Call
  delete : ℕ → User → Call

module _ (sanitize : Text → Text) where
  abbrev pub run : Call → List Comment → List Comment
  run (create now id problem solution user args) comments =
      (create_comment sanitize now id problem solution user args comments).1
  run (edit id actor body) comments = (edit_comment sanitize id actor body comments).1
  run (delete id actor) comments = (delete_comment id actor comments).1

  -- A generated id is new.
  abbrev pub IsFresh : Call → List Comment → Type 0
  IsFresh (create now id problem solution user args) comments =
      lookup comment_key id comments ≡ none
  IsFresh _ comments = Unit

  -- No call cuts a thread: where each reply of the table has its parent in the table, on the same
  -- problem, this is so after a comment is created, edited or deleted, since one with replies is kept as a
  -- tombstone. It takes that the id of a created comment is new.
  pub run-IsThreaded :
      (call : Call) (comments : List Comment)
      → IsFresh call comments
      → IsThreaded comments
      → IsThreaded (run call comments)
  run-IsThreaded (create now id problem solution user args) comments fresh h =
      create-IsThreaded sanitize comments now id problem solution user args fresh h
  run-IsThreaded (edit id actor body) comments fresh h =
      edit-IsThreaded sanitize comments id actor body h
  run-IsThreaded (delete id actor) comments fresh h = delete-IsThreaded sanitize comments id actor h
