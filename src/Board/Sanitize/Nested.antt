-- ===== src/Board/Sanitize/Nested.antt =====
-- What one pass over the tags leaves.
use problem_bulletin.Prelude.{
  ℕ, zero, suc, ◌≤◌, ◌≡◌, ◌==◌, refl, ap, ◌∙◌, inl, inr, Bool, true, false, none, some, [], ◌∷◌,
  ◌++◌, length, length-append, All, arith, Bool-cases,
}
use problem_bulletin.Prelude.Text.{Text}
use problem_bulletin.Board.Sanitize.{
  less, slash, greater, until, Tag, span_word, tag_at, is_allowed, replace, emit, sub,
  sanitize_html,
}

module _ (is_word : ℕ → Bool) (lower : Text → Text) where
  abbrev pub AllWord : Text → Type 0
  AllWord s = All (λ c. is_word c ≡ true) s

  -- No tag can begin in the text.
  abbrev pub NoLess : Text → Type 0
  NoLess s = All (λ c. (c == less) ≡ false) s

  sub_plain : (fuel : ℕ) (s : Text) → length s ≤ fuel → NoLess s → sub is_word lower fuel s ≡ s
  unfolding sub
  sub_plain zero [] h k = refl
  sub_plain zero (c ∷ s) h k = absurd (omega arith)
  sub_plain (suc fuel) [] h k = refl
  sub_plain (suc fuel) (c ∷ s) h k = rw k.0 (ap (◌∷◌ c) (sub_plain fuel s (omega arith) k.1))

  -- The text after `<` in a name's place is no tag.
  sub-less :
      (fuel : ℕ) (s : Text)
      → tag_at is_word lower s ≡ none
      → sub is_word lower (suc fuel) (less ∷ s) ≡ less ∷ sub is_word lower fuel s
  unfolding sub
  sub-less fuel s h = ap (emit is_word lower less s (sub is_word lower fuel)) h

  sub-tag :
      (fuel : ℕ) (s after : Text) (t : Tag)
      → tag_at is_word lower s ≡ some (t, after)
      → sub is_word lower (suc fuel) (less ∷ s)
        ≡ replace is_word lower t ++ sub is_word lower fuel after
  unfolding sub
  sub-tag fuel s after t h = ap (emit is_word lower less s (sub is_word lower fuel)) h

  module _ (less_word : is_word less ≡ false) (greater_word : is_word greater ≡ false)
      (slash_word : is_word slash ≡ false) where
    span-name :
        (u rest : Text)
        → AllWord u
        → span_word is_word lower (u ++ greater ∷ rest) ≡ (u, greater ∷ rest)
    unfolding span_word
    span-name [] rest h = rw greater_word refl
    span-name (c ∷ u) rest h = rw (span-name u rest h.1, h.0) refl

    two_less : (s : Text) → tag_at is_word lower (less ∷ s) ≡ none
    unfolding tag_at span_word
    two_less s = rw less_word refl

    name_tag : ℕ → Text → Tag
    name_tag c u = record { closing = false; name = c ∷ u; attrs = [] }

    named :
        (c : ℕ) (u rest : Text)
        → AllWord (c ∷ u)
        → tag_at is_word lower (c ∷ u ++ greater ∷ rest) ≡ some (name_tag c u, rest)
    unfolding tag_at until name_tag
    named c u rest h =
        let no_slash : (c == slash) ≡ false = apart c h.0 in
        rw (no_slash, span-name (c ∷ u) rest h) refl
      where
        apart : (c : ℕ) → is_word c ≡ true → (c == slash) ≡ false
        apart c k = elim (Bool-cases (c == slash)) [
          | inr e ↦ e
          | inl e ↦ let same : c ≡ slash = ground (arith, e) in absurd (clash c same k)
        ]
          where
            clash : (c : ℕ) → c ≡ slash → is_word c ≡ true → ⊥
            clash c same k = cc

    dropped :
        (c : ℕ) (u : Text)
        → is_allowed is_word lower (c ∷ u) ≡ false
        → replace is_word lower (name_tag c u) ≡ []
    unfolding replace name_tag
    dropped c u h = rw h refl

    -- One pass is not enough: a `<` in front of a tag that is not on the allowlist stays, as no tag begins with
    -- two of them, and when the tag is taken out it meets what follows. So any text without `<`, a tag's
    -- name and `>` say, is a tag in the result. It takes that `<`, `>` and `/` are no word signs, as in `\w`.
    pub sanitize-nested :
        (c : ℕ) (u rest : Text)
        → AllWord (c ∷ u)
        → is_allowed is_word lower (c ∷ u) ≡ false
        → NoLess rest
        → sanitize_html is_word lower (less ∷ less ∷ c ∷ u ++ greater ∷ rest) ≡ less ∷ rest
    unfolding sanitize_html
    sanitize-nested c u rest words banned plain =
        let inner = c ∷ u ++ greater ∷ rest in
        let fuel = length inner in
        sub-less (suc fuel) (less ∷ inner) (two_less inner)
        ∙ ap (◌∷◌ less) (
            sub-tag fuel inner rest (name_tag c u) (named c u rest words)
            ∙ ap (λ (out : Text). out ++ sub is_word lower fuel rest) (dropped c u banned)
            ∙ sub_plain fuel rest (omega (arith, length-append u (greater ∷ rest))) plain)
