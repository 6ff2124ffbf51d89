-- ===== src/Notifications/Excerpt.antt =====
-- `_excerpt` of app/services/ticket_notifications.py: the text of an inbox row.
use problem_bulletin.Prelude.{
  ℕ, zero, suc, ◌≡◌, refl, ◌≤◌, ◌-◌, [], ◌∷◌, ◌++◌, arith, leb, if◌then◌else◌, length,
  length-append, Bool-cases, inl, inr,
}
use problem_bulletin.Prelude.Text.{Text, text, strip, lstrip, rstrip, is_empty, length-rstrip-le}

-- `_EXCERPT_MAX`
abbrev pub excerpt_max : ℕ
excerpt_max = 140

-- `body[:n]`
unfoldable pub take : ℕ → Text → Text
take zero s = []
take (suc n) [] = []
take (suc n) (c ∷ s) = c ∷ take n s

length-take-le : (n : ℕ) (s : Text) → length (take n s) ≤ n
unfolding take
length-take-le zero s = omega arith
length-take-le (suc n) [] = omega arith
length-take-le (suc n) (c ∷ s) = omega (arith, length-take-le n s)

-- A stripped text, cut to the maximum.
clip : Text → Text
unfolding take
clip s = if leb (length s) excerpt_max then s else rstrip (take (excerpt_max - 1) s) ++ text "…"

unfoldable pub excerpt_of : Text → Text
unfolding clip
excerpt_of body = if is_empty body then [] else clip (strip body)

length-clip : (s : Text) → (length (clip s) ≤ 140) × (length s ≤ 140 → clip s ≡ s)
unfolding clip
length-clip s = elim (Bool-cases (leb (length s) 140)) [
  | inl e ↦ rw e (ground arith, λ h. refl)
  | inr e ↦ rw e (
    omega (
      arith,
      length-append (rstrip (take 139 s)) (text "…"),
      length-take-le 139 s,
      length-rstrip-le (take 139 s),
    ),
    λ h. absurd (ground arith),
  )
]

-- An excerpt has at most 140 characters, the ellipsis of a cut one included, and a text that has at
-- most 140 after stripping is kept whole.
excerpt_of_lem :
    (body : Text)
    → (length (excerpt_of body) ≤ 140) × (length (strip body) ≤ 140 → excerpt_of body ≡ strip body)
unfolding excerpt_of
excerpt_of_lem [] = (omega arith, λ h. unfold strip rstrip lstrip in refl)
excerpt_of_lem (c ∷ s) = length-clip (strip (c ∷ s))
