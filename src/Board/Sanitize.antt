-- ===== src/Board/Sanitize.antt =====
-- `_sanitize_html` of app/services/comments.py: the regular expressions `<(/?)(\w+)([^>]*)>` and
-- `href\s*=\s*"([^"]*)"` written out. What `\w` matches and `str.lower` are arguments.
pub mod Nested
use problem_bulletin.Prelude.{
  ℕ, zero, suc, ◌+◌, ◌==◌, Bool, true, false, not, ◌&&◌, ◌||◌, Option, none, some, List, [], ◌∷◌,
  ◌++◌, length, any, ltb, leb, if◌then◌else◌,
}
use problem_bulletin.Prelude.Text.{Text, text, text_eq, is_empty, lstrip}

-- `<`, `>`, `/`, `"` and `=`
abbrev pub less : ℕ
less = 60

abbrev pub greater : ℕ
greater = 62

abbrev pub slash : ℕ
slash = 47

abbrev pub quote : ℕ
quote = 34

abbrev pub equals : ℕ
equals = 61

-- `_ALLOWED_TAGS`
abbrev pub allowed_tags : List Text
allowed_tags =
    text "p"
    ∷ text "strong"
    ∷ text "em"
    ∷ text "code"
    ∷ text "pre"
    ∷ text "blockquote"
    ∷ text "ul"
    ∷ text "ol"
    ∷ text "li"
    ∷ text "a"
    ∷ text "br"
    ∷ []

-- What stands before the first such sign, and what after it.
unfoldable pub until : ℕ → Text → Option (Text × Text)
until mark [] = none
until mark (c ∷ s) =
    let rest = until mark s in
    if c == mark
    then some ([], s)
    else elim rest [ none ↦ none | some (before, after) ↦ some (c ∷ before, after) ]

-- Drops a text that stands in front, in either case of its letters; the text is in lower case.
unfoldable pub drop_prefix : Text → Text → Option Text
drop_prefix [] s = some s
drop_prefix (p ∷ ps) [] = none
drop_prefix (p ∷ ps) (c ∷ s) =
    let rest = drop_prefix ps s in if c == p || c + 32 == p then rest else none

abbrev drop_sign : ℕ → Text → Option Text
drop_sign mark [] = none
drop_sign mark (c ∷ s) = if c == mark then some s else none

abbrev and_then {ℓ} : {A B : Type ℓ} → Option A → (A → Option B) → Option B
and_then none f = none
and_then (some a) f = f a

-- The value, where an attribute `href="..."` begins here.
abbrev href_here : Text → Option Text
href_here s = and_then (drop_prefix (text "href") s) λ s1.
    and_then (drop_sign equals (lstrip s1)) λ s2.
      and_then (drop_sign quote (lstrip s2))
        λ s3. and_then (until quote s3) λ (value, after). some value

-- `re.search`: the value of the first such attribute
unfoldable pub href_of : Text → Option Text
unfolding until drop_prefix lstrip
href_of [] = none
href_of (c ∷ s) =
    let rest = href_of s in elim (href_here (c ∷ s)) [ some value ↦ some value | none ↦ rest ]

-- A matched tag: is it closing, its name and its attributes.
pub record Tag : Type 0 where
  pub closing : Bool
  pub name : Text
  pub attrs : Text

module _ (is_word : ℕ → Bool) (lower : Text → Text) where
  -- `\w*`, as much as there is
  unfoldable pub span_word : Text → Text × Text
  span_word [] = ([], [])
  span_word (c ∷ s) =
      let (word, rest) = span_word s in if is_word c then (c ∷ word, rest) else ([], c ∷ s)

  abbrev pub with_name : Bool → Text × Text → Option (Tag × Text)
  with_name closing ([], s) = none
  with_name closing (c ∷ name, s) = elim (until greater s) [
    | none ↦ none
    | some (attrs, after) ↦
        some (record { closing = closing; name = c ∷ name; attrs = attrs }, after)
  ]

  -- The rest of a match after `<`, and what follows it.
  unfoldable pub tag_at : Text → Option (Tag × Text)
  unfolding span_word until
  tag_at [] = none
  tag_at (c ∷ s) =
      if c == slash then with_name true (span_word s) else with_name false (span_word (c ∷ s))

  abbrev link : Option Text → Text
  link none = text "<a>"
  link (some value) = text "<a href=\"" ++ value ++ text "\">"

  abbrev pub is_allowed : Text → Bool
  is_allowed name = any (text_eq (lower name)) allowed_tags

  -- `_replace`
  unfoldable pub replace : Tag → Text
  unfolding href_of
  replace t =
      if not (is_allowed t.name)
      then []
      else if text_eq (lower t.name) (text "a") && not t.closing
      then link (href_of t.attrs)
      else if t.closing
      then text "</" ++ lower t.name ++ text ">"
      else text "<" ++ lower t.name ++ text ">"

  abbrev pub emit : ℕ → Text → (Text → Text) → Option (Tag × Text) → Text
  emit c s next none = c ∷ next s
  emit c s next (some (t, after)) = replace t ++ next after

  -- `_TAG_RE.sub`, with fuel for the length of the text
  unfoldable pub sub : ℕ → Text → Text
  unfolding tag_at replace
  sub zero s = []
  sub (suc fuel) [] = []
  sub (suc fuel) (c ∷ s) =
      let plain = c ∷ sub fuel s in
      let matched = emit c s (sub fuel) (tag_at s) in if c == less then matched else plain

  -- `_sanitize_html`
  unfoldable pub sanitize_html : Text → Text
  unfolding sub
  sanitize_html s = sub (length s) s
