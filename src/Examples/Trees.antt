-- ===== src/Examples/Trees.antt =====
-- The parenting rules and the workflow at two tickets.
use problem_bulletin.Prelude.{◌≡◌, ◌≢◌, ◌↔◌, refl, true, ◌||◌, none, some, [], arith}
use problem_bulletin.Prelude.Table.{lookup}
use problem_bulletin.Domain.{story, ok, err, parent_cycle, ticket_key, in_review, backlog}
use problem_bulletin.Hierarchy.{
  check_chain, chain_fuel, check_cycle, validate_hierarchy, walk_to_epic, may_parent,
}
use problem_bulletin.Hierarchy.Forest.{IsForest, parent_valid}
use problem_bulletin.Hierarchy.Cycles.{check_chain-ne-none, Chain, check_cycle_exact}
use problem_bulletin.Hierarchy.Epic.{
  validate_hierarchy_exact, NearestEpic, walk_to_epic-NearestEpic,
}
use problem_bulletin.Workflow.{is_allowed}
use problem_bulletin.Workflow.Matrix.{spec_matrix, extra_moves, is_allowed-eq-spec_matrix}
use problem_bulletin.Examples.Rows.{two_tickets, the_story}

forest : IsForest two_tickets
unfolding lookup may_parent
forest = record { at = λ k t found. ground arith }

story_found : lookup ticket_key 11 two_tickets ≡ some the_story
unfolding lookup
story_found = refl

epic_valid : parent_valid two_tickets story 3 (some 10) ≡ true
unfolding lookup may_parent
epic_valid = refl

check_chain-ne-none_example :
    check_chain (chain_fuel two_tickets) two_tickets 11 [] (some 10) ≢ none
check_chain-ne-none_example = check_chain-ne-none two_tickets 11 10

check_cycle_exact_example :
    (check_cycle two_tickets (some 10) 11 ≡ ok tt → ¬ Chain two_tickets (some 11) 10)
    × (check_cycle two_tickets (some 10) 11 ≡ err parent_cycle → Chain two_tickets (some 11) 10)
check_cycle_exact_example = check_cycle_exact two_tickets 10 11

validate_hierarchy_exact_example :
    (validate_hierarchy two_tickets story (some 10) (some 11) 3 ≡ ok tt)
    ↔ (parent_valid two_tickets story 3 (some 10) ≡ true)
validate_hierarchy_exact_example =
    validate_hierarchy_exact two_tickets the_story (some 10) forest story_found

walk_to_epic-NearestEpic_example :
    NearestEpic two_tickets (some 10) (walk_to_epic two_tickets (some 10))
walk_to_epic-NearestEpic_example =
    walk_to_epic-NearestEpic two_tickets story 3 (some 10) forest epic_valid

is_allowed-eq-spec_matrix_example :
    is_allowed in_review backlog ≡ (spec_matrix in_review backlog || extra_moves in_review backlog)
is_allowed-eq-spec_matrix_example = is_allowed-eq-spec_matrix in_review backlog
