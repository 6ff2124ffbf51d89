-- ===== src/Board/Watches/Levels.antt =====
-- The level of a watch.
use problem_bulletin.Prelude.{
  ℕ, ◌==◌, ◌≡◌, refl, ap, ◌∙◌, inl, inr, Bool, true, ◌&&◌, Option, none, some, List, [], ◌∷◌, any,
  leb, arith, if◌then◌else◌, Bool-cases,
}
use problem_bulletin.Board.Watches.{
  WatchLevel, level_priority, Watch, is_watch, get_watch, overwrite, set_watch, unless_higher,
  auto_watch,
}

-- The level at which a user watches a problem.
abbrev pub level_of : ℕ → ℕ → List Watch → Option WatchLevel
level_of user problem [] = none
level_of user problem (w ∷ watches) =
    if is_watch user problem w then some w.level else level_of user problem watches

abbrev pub is_same : ℕ → ℕ → ℕ → ℕ → Bool
is_same user problem user' problem' = user == user' && problem == problem'

get_watch-level :
    (user problem : ℕ) (watches : List Watch)
    → level_of user problem watches
      ≡ elim (get_watch user problem watches) [ none ↦ none | some w ↦ some w.level ]
unfolding get_watch
get_watch-level user problem [] = refl
get_watch-level user problem (w ∷ watches) = ground (arith, get_watch-level user problem watches)

overwrite-level :
    (user problem user' problem' : ℕ) (level : WatchLevel) (watches : List Watch)
    → level_of user' problem' (overwrite user problem level watches) ≡ (
        if is_same user problem user' problem' && any (is_watch user problem) watches
        then some level
        else level_of user' problem' watches)
unfolding overwrite
overwrite-level user problem user' problem' level [] = ground arith
overwrite-level user problem user' problem' level (w ∷ watches) =
    ground (arith, overwrite-level user problem user' problem' level watches)

set_watch-level :
    (user problem user' problem' : ℕ) (level : WatchLevel) (watches : List Watch)
    → level_of user' problem' (set_watch user problem level watches) ≡ (
        if is_same user problem user' problem' then some level else level_of user' problem' watches)
unfolding set_watch
set_watch-level user problem user' problem' level watches =
    elim (Bool-cases (any (is_watch user problem) watches)) [
      | inl e ↦ rw e (ground (arith, e, overwrite-level user problem user' problem' level watches))
      | inr e ↦ rw e (ground arith)
    ]

-- The higher of the level before, if any, and the one that is asked for.
abbrev pub higher : Option WatchLevel → WatchLevel → WatchLevel
higher none level = level
higher (some old) level = if leb (level_priority level) (level_priority old) then old else level

same_level :
    (user problem user' problem' : ℕ) (watches : List Watch)
    → is_same user problem user' problem' ≡ true
    → level_of user' problem' watches ≡ level_of user problem watches
same_level user problem user' problem' watches h =
    let users : user' ≡ user = ground (arith, h) in
    let problems : problem' ≡ problem = ground (arith, h) in
    ap (λ u. level_of u problem' watches) users ∙ ap (λ p. level_of user p watches) problems

unless_higher-level :
    (user problem user' problem' : ℕ) (level : WatchLevel) (watches : List Watch)
    (found : Option Watch)
    → level_of user problem watches ≡ elim found [ none ↦ none | some w ↦ some w.level ]
    → level_of user' problem' (unless_higher user problem level found watches) ≡ (
        if is_same user problem user' problem'
        then some (higher (level_of user' problem' watches) level)
        else level_of user' problem' watches)
unless_higher-level user problem user' problem' level watches none old =
    elim (Bool-cases (is_same user problem user' problem')) [
      | inl e ↦ ground (
        arith,
        e,
        same_level user problem user' problem' watches e,
        old,
        set_watch-level user problem user' problem' level watches,
      )
      | inr e ↦ ground (arith, e, set_watch-level user problem user' problem' level watches)
    ]
unless_higher-level user problem user' problem' level watches (some w) old =
    elim (Bool-cases (leb (level_priority level) (level_priority w.level))) [
      | inl keep ↦ elim (Bool-cases (is_same user problem user' problem')) [
        | inl e ↦ ground (arith, e, keep, same_level user problem user' problem' watches e, old)
        | inr e ↦ ground (arith, e, keep)
      ]
      | inr raise ↦ elim (Bool-cases (is_same user problem user' problem')) [
        | inl e ↦ ground (
          arith,
          e,
          raise,
          same_level user problem user' problem' watches e,
          old,
          set_watch-level user problem user' problem' level watches,
        )
        | inr e ↦
            ground (arith, e, raise, set_watch-level user problem user' problem' level watches)
      ]
    ]

-- `auto_watch` never lowers a watch: afterwards the user watches the problem at the higher of the
-- level before, if there was one, and the level that is asked for; nobody else's watch and no other problem's changes.
pub auto_watch-level :
    (user problem user' problem' : ℕ) (level : WatchLevel) (watches : List Watch)
    → level_of user' problem' (auto_watch user problem level watches) ≡ (
        if is_same user problem user' problem'
        then some (higher (level_of user' problem' watches) level)
        else level_of user' problem' watches)
unfolding auto_watch
auto_watch-level user problem user' problem' level watches =
    unless_higher-level user problem user' problem' level watches (get_watch user problem watches)
      (get_watch-level user problem watches)
