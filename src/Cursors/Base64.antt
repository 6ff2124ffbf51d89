-- ===== src/Cursors/Base64.antt =====
-- Python's `base64.urlsafe_b64encode` and `base64.urlsafe_b64decode`, and the padding that
-- app/services/_pagination.py drops and puts back. Bytes are numbers below 256.
use problem_bulletin.Prelude.{
  ℕ, zero, suc, ◌+◌, ◌-◌, ◌*◌, ◌/◌, ◌%◌, ◌==◌, Bool, true, false, ◌&&◌, ◌||◌, Option, none, some,
  List, [], ◌∷◌, length, ltb, leb, if◌then◌else◌,
}
use problem_bulletin.Prelude.Text.{Text, is_empty}

-- The sign of a sextet in the URL-safe alphabet.
abbrev pub sign : ℕ → ℕ
sign v =
    if ltb v 26
    then 65 + v
    else if ltb v 52
    then 71 + v
    else if ltb v 62
    then v - 4
    else if v == 62
    then 45
    else 95

-- `=`
abbrev pub equals_sign : ℕ
equals_sign = 61

-- `urlsafe_b64encode`
unfoldable pub urlsafe_b64encode : List ℕ → Text
urlsafe_b64encode [] = []
urlsafe_b64encode (a ∷ []) = sign (a / 4) ∷ sign (a % 4 * 16) ∷ equals_sign ∷ equals_sign ∷ []
urlsafe_b64encode (a ∷ b ∷ []) =
    sign (a / 4) ∷ sign (a % 4 * 16 + b / 16) ∷ sign (b % 16 * 4) ∷ equals_sign ∷ []
urlsafe_b64encode (a ∷ b ∷ c ∷ rest) =
    sign (a / 4)
    ∷ sign (a % 4 * 16 + b / 16)
    ∷ sign (b % 16 * 4 + c / 64)
    ∷ sign (c % 64)
    ∷ urlsafe_b64encode rest

-- `.rstrip(b"=")`
unfoldable pub rstrip_equals : Text → Text
rstrip_equals [] = []
rstrip_equals (c ∷ s) =
    let rest = rstrip_equals s in if is_empty rest && c == equals_sign then [] else c ∷ rest

-- The sextet of a sign, in both alphabets: `urlsafe_b64decode` translates - and _ and keeps + and /.
abbrev pub sextet : ℕ → Option ℕ
sextet c =
    if leb 65 c && leb c 90
    then some (c - 65)
    else if leb 97 c && leb c 122
    then some (c - 71)
    else if leb 48 c && leb c 57
    then some (c + 4)
    else if c == 45 || c == 43
    then some 62
    else if c == 95 || c == 47
    then some 63
    else none

-- How many sextets of a group of four have been read, and the bits that are left over.
pub data Quad : Type 0 where
  none_read : Quad
  one_read two_read three_read : ℕ → Quad

abbrev with_byte : ℕ → Option (List ℕ) → Option (List ℕ)
with_byte b none = none
with_byte b (some bytes) = some (b ∷ bytes)

-- The byte that a sextet completes, if any, before the bytes that follow.
abbrev pub emit : Quad → ℕ → Option (List ℕ) → Option (List ℕ)
emit none_read v rest = rest
emit (one_read left) v rest = with_byte (left * 4 + v / 16) rest
emit (two_read left) v rest = with_byte (left * 16 + v / 4) rest
emit (three_read left) v rest = with_byte (left * 64 + v) rest

abbrev pub next : Quad → ℕ → Quad
next none_read v = one_read v
next (one_read left) v = two_read (v % 16)
next (two_read left) v = three_read (v % 4)
next (three_read left) v = none_read

-- Does a `=` end the data, after so many others?
abbrev pub ends : Quad → ℕ → Bool
ends none_read pads = false
ends (one_read left) pads = false
ends (two_read left) pads = leb 1 pads
ends (three_read left) pads = true

-- `if quad_pos != 0: raise binascii.Error`
abbrev pub finish : Quad → Option (List ℕ)
finish none_read = some []
finish (one_read left) = none
finish (two_read left) = none
finish (three_read left) = none

-- A `=` that does not end the data counts from the third place of a group on.
abbrev pub more_pads : Quad → ℕ → ℕ
more_pads none_read pads = pads
more_pads (one_read left) pads = pads
more_pads (two_read left) pads = suc pads
more_pads (three_read left) pads = suc pads

-- A sextet, or a sign that is none.
abbrev pub on_sign : Option ℕ → (ℕ → Option (List ℕ)) → Option (List ℕ) → Option (List ℕ)
on_sign (some v) read other = read v
on_sign none read other = other

-- `binascii.a2b_base64` without the strict mode: signs outside the alphabet are passed over.
-- None is `binascii.Error`.
unfoldable pub scan : Quad → ℕ → Text → Option (List ℕ)
scan q pads [] = finish q
scan q pads (c ∷ s) =
    let padded = scan q (more_pads q pads) s in
    let passed = scan q pads s in
    on_sign (sextet c) (λ v. emit q v (scan (next q v) 0 s))
      (if c == equals_sign then (if ends q pads then some [] else padded) else passed)

abbrev pub all_ascii : Text → Bool
all_ascii [] = true
all_ascii (c ∷ s) = ltb c 128 && all_ascii s

-- What decoding a text gives: its bytes, `binascii.Error`, or the `ValueError` on a sign outside ASCII.
pub data Decoded : Type 0 where
  bytes : List ℕ → Decoded
  binascii_error not_ascii : Decoded

abbrev pub of_scan : Option (List ℕ) → Decoded
of_scan none = binascii_error
of_scan (some bs) = bytes bs

-- `urlsafe_b64decode`
unfoldable pub urlsafe_b64decode : Text → Decoded
unfolding scan
urlsafe_b64decode s = if all_ascii s then of_scan (scan none_read 0 s) else not_ascii

abbrev pub equals_signs : ℕ → Text
equals_signs zero = []
equals_signs (suc n) = equals_sign ∷ equals_signs n

-- `"=" * (-len(c) % 4)`
unfoldable pub padding : Text → Text
padding s = equals_signs ((4 - length s % 4) % 4)
