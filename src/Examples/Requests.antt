-- ===== src/Examples/Requests.antt =====
-- Requests of the ticket service.
use problem_bulletin.Prelude.{◌≡◌, refl, none, some, [], ◌∷◌, arith}
use problem_bulletin.Prelude.Text.{text}
use problem_bulletin.Prelude.Table.{lookup}
use problem_bulletin.Domain.{in_progress, ok, err, stale_version, already_claimed, blocks}
use problem_bulletin.Queue.{Digest}
use problem_bulletin.Tickets.{uuid, load, save}
use problem_bulletin.Tickets.Update.{update, edited, check_parent, save_checked}
use problem_bulletin.Tickets.Assign.{claim, claimed_by, take_free}
use problem_bulletin.Tickets.Races.Edits.{Edit, patching, edit, edit_once}
use problem_bulletin.Tickets.Races.Claims.{claim_once}
use problem_bulletin.Tickets.Links.Laws.{IsPaired}
use problem_bulletin.Tickets.Links.{has_link}
use problem_bulletin.Service.{
  creating, moving, linking, run_call, World, transact, Reach, start, then,
}
use problem_bulletin.Service.Invariant.{IsConsistent, Reach-IsConsistent}
use problem_bulletin.Service.Pairing.{Reach-IsPaired}
use problem_bulletin.Examples.Rows.{
  alice, bot, other_bot, request, two_tickets, the_story, tables, empty_world, new_story, rename,
}

-- A stand-in for the digest.
abbrev digest : Digest
digest who ticket prompt = who ∷ ticket ∷ prompt

empty-IsConsistent : IsConsistent (tables [])
unfolding lookup
empty-IsConsistent = record {
  forest = record { at = λ k t found. ground arith };
  logged = record { at = λ k t found. ground arith; chain = tt };
}

-- A story is created and started.
abbrev created : World
created = transact (run_call digest alice request (creating new_story)) empty_world

abbrev began : World
began = transact (run_call digest alice request (moving (uuid 50) in_progress none)) created

began-Reach : Reach digest empty_world began
unfolding lookup
began-Reach =
    then (then start alice request (creating new_story) (refl, refl)) alice request
      (moving (uuid 50) in_progress none) tt

Reach-IsConsistent_example : IsConsistent began.db
Reach-IsConsistent_example = Reach-IsConsistent digest empty-IsConsistent began-Reach

no-IsPaired : IsPaired []
unfolding has_link
no-IsPaired = record {
  paired = λ source target lt inverse e found. ground arith;
  once = λ source target lt. omega arith;
}

Reach-IsPaired_example :
    IsPaired
      (transact
        (run_call digest alice request (linking 10 11 blocks))
        (record { db = tables two_tickets; published = [] })).db.links
Reach-IsPaired_example =
    Reach-IsPaired digest {w = record { db = tables two_tickets; published = [] }} no-IsPaired
      (then start alice request (linking 10 11 blocks) tt)

abbrev first_edit : Edit
first_edit = patching (rename (text "Renamed"))

abbrev second_edit : Edit
second_edit = patching (rename (text "Renamed again"))

first_edit_done :
    (edit digest (uuid 11) alice 4 first_edit request (tables two_tickets)).0
    ≡ ok (edited two_tickets (rename (text "Renamed")) alice request the_story)
unfolding edit update load lookup check_parent save_checked save
first_edit_done = refl

edit_once_example :
    (let after = (edit digest (uuid 11) alice 4 first_edit request (tables two_tickets)).1 in
      edit digest (uuid 11) bot 4 second_edit request after ≡ (err (stale_version 5), after))
edit_once_example =
    edit_once digest 11 alice bot 4 first_edit second_edit request request (tables two_tickets)
      (edited two_tickets (rename (text "Renamed")) alice request the_story) first_edit_done refl

claim_done :
    (claim (uuid 11) bot request (tables two_tickets)).0 ≡ ok (claimed_by bot request the_story)
unfolding claim load lookup take_free save
claim_done = refl

claim_once_example :
    (let after = (claim (uuid 11) bot request (tables two_tickets)).1 in
      (load (uuid 11) after ≡ (ok (claimed_by bot request the_story), after))
      × ((claimed_by bot request the_story).assignee_id ≡ some 7)
      × (claim (uuid 11) other_bot request after ≡ (err (already_claimed (some 7)), after)))
claim_once_example =
    claim_once 11 bot other_bot request request (tables two_tickets)
      (claimed_by bot request the_story) claim_done refl
