-- ===== src/Board/Watches.antt =====
-- app/services/watches.py: who watches a problem, and how closely.
pub mod Levels
use problem_bulletin.Prelude.{
  ℕ, ◌==◌, Bool, true, false, not, ◌&&◌, Option, none, some, List, [], ◌∷◌, map, filter, any, leb,
  if◌then◌else◌,
}

-- `WatchLevel`
pub data WatchLevel : Type 0 where
  all_activity solutions_only status_only no_watch : WatchLevel

-- `_LEVEL_PRIORITY`, in which `none` is `no_watch`
abbrev pub level_priority : WatchLevel → ℕ
level_priority no_watch = 0
level_priority status_only = 1
level_priority solutions_only = 2
level_priority all_activity = 3

-- app/models/watch.py
pub record Watch : Type 0 where
  pub user_id : ℕ
  pub problem_id : ℕ
  pub level : WatchLevel

abbrev pub is_watch : ℕ → ℕ → Watch → Bool
is_watch user problem w = w.user_id == user && w.problem_id == problem

-- `get_watch`
unfoldable pub get_watch : ℕ → ℕ → List Watch → Option Watch
get_watch user problem [] = none
get_watch user problem (w ∷ watches) =
    let rest = get_watch user problem watches in if is_watch user problem w then some w else rest

-- `on_conflict_do_update`: the row of the user and the problem gets the level
unfoldable pub overwrite : ℕ → ℕ → WatchLevel → List Watch → List Watch
overwrite user problem level [] = []
overwrite user problem level (w ∷ watches) =
    let rest = overwrite user problem level watches in
    if is_watch user problem w then record w { level = level } ∷ rest else w ∷ rest

-- `set_watch`
unfoldable pub set_watch : ℕ → ℕ → WatchLevel → List Watch → List Watch
unfolding overwrite
set_watch user problem level watches =
    if any (is_watch user problem) watches
    then overwrite user problem level watches
    else record { user_id = user; problem_id = problem; level = level } ∷ watches

-- `remove_watch`, and whether it has deleted a row
unfoldable pub remove_watch : ℕ → ℕ → List Watch → Bool × List Watch
remove_watch user problem watches =
    (any (is_watch user problem) watches, filter (λ w. not (is_watch user problem w)) watches)

abbrev pub unless_higher : ℕ → ℕ → WatchLevel → Option Watch → List Watch → List Watch
unless_higher user problem level none watches = set_watch user problem level watches
unless_higher user problem level (some w) watches =
    if leb (level_priority level) (level_priority w.level)
    then watches
    else set_watch user problem level watches

-- `auto_watch`
unfoldable pub auto_watch : ℕ → ℕ → WatchLevel → List Watch → List Watch
unfolding get_watch set_watch
auto_watch user problem level watches =
    unless_higher user problem level (get_watch user problem watches) watches
