-- ===== src/Cursors/RoundTrip.antt =====
-- Decoding what was encoded.
use problem_bulletin.Prelude.{
  ℕ, zero, suc, ◌+◌, ◌-◌, ◌*◌, ◌/◌, ◌%◌, ◌==◌, ◌≡◌, ◌<◌, refl, ap, ◌∙◌, true, false, ◌&&◌, List, [],
  ◌∷◌, ◌++◌, length, arith,
}
use problem_bulletin.Prelude.Text.{Text, is_empty}
use problem_bulletin.Cursors.Base64.{
  sign, equals_sign, urlsafe_b64encode, rstrip_equals, all_ascii, bytes, urlsafe_b64decode,
  equals_signs, padding,
}
use problem_bulletin.Cursors.Sextets.{
  Bytes, bare, pads_of, sign_ascii, encode-bare, scan-bare, first_lt, second_lt, third_lt,
}

rstrip-sign : (v : ℕ) (s : Text) → v < 64 → rstrip_equals (sign v ∷ s) ≡ sign v ∷ rstrip_equals s
unfolding rstrip_equals
rstrip-sign v s h =
    let apart : (sign v == equals_sign) ≡ false = ground arith in ground (arith, apart)

rstrip-equals_signs : (n : ℕ) → rstrip_equals (equals_signs n) ≡ []
unfolding rstrip_equals
rstrip-equals_signs zero = refl
rstrip-equals_signs (suc n) = rw (rstrip-equals_signs n) refl

rstrip-bare : (bs : List ℕ) (n : ℕ) → Bytes bs → rstrip_equals (bare bs ++ equals_signs n) ≡ bare bs
rstrip-bare [] n h = rstrip-equals_signs n
rstrip-bare (a ∷ []) n h =
    rw
      (
        rstrip-sign (a / 4) (sign (a % 4 * 16) ∷ equals_signs n) (first_lt a h.0),
        rstrip-sign (a % 4 * 16) (equals_signs n) (omega arith),
        rstrip-equals_signs n,
      )
      refl
rstrip-bare (a ∷ b ∷ []) n h =
    let v = a % 4 * 16 + b / 16 in
    rw
      (
        rstrip-sign (a / 4) (sign v ∷ sign (b % 16 * 4) ∷ equals_signs n) (first_lt a h.0),
        rstrip-sign v (sign (b % 16 * 4) ∷ equals_signs n)
            (second_lt a (b / 16) (omega (arith, h.1.0))),
        rstrip-sign (b % 16 * 4) (equals_signs n) (omega arith),
        rstrip-equals_signs n,
      )
      refl
rstrip-bare (a ∷ b ∷ c ∷ rest) n h =
    let v = a % 4 * 16 + b / 16 in
    let w = b % 16 * 4 + c / 64 in
    let tail = bare rest ++ equals_signs n in
    rw
      (
        rstrip-sign (a / 4) (sign v ∷ sign w ∷ sign (c % 64) ∷ tail) (first_lt a h.0),
        rstrip-sign v (sign w ∷ sign (c % 64) ∷ tail) (second_lt a (b / 16) (omega (arith, h.1.0))),
        rstrip-sign w (sign (c % 64) ∷ tail) (third_lt b (c / 64) (omega (arith, h.1.1.0))),
        rstrip-sign (c % 64) tail (omega arith),
        rstrip-bare rest n h.1.1.1,
      )
      refl

pads_lem : (bs : List ℕ) → (4 - length (bare bs) % 4) % 4 ≡ pads_of bs
pads_lem [] = refl
pads_lem (a ∷ []) = refl
pads_lem (a ∷ b ∷ []) = refl
pads_lem (a ∷ b ∷ c ∷ rest) = omega (arith, pads_lem rest)

pub all_ascii-append : (s t : Text) → all_ascii (s ++ t) ≡ (all_ascii s && all_ascii t)
all_ascii-append [] t = refl
all_ascii-append (c ∷ s) t = ground (arith, all_ascii-append s t)

all_ascii-equals_signs : (n : ℕ) → all_ascii (equals_signs n) ≡ true
all_ascii-equals_signs zero = refl
all_ascii-equals_signs (suc n) = all_ascii-equals_signs n

all_ascii-bare : (bs : List ℕ) → Bytes bs → all_ascii (bare bs) ≡ true
all_ascii-bare [] h = refl
all_ascii-bare (a ∷ []) h =
    rw (sign_ascii (a / 4) (first_lt a h.0), sign_ascii (a % 4 * 16) (omega arith)) refl
all_ascii-bare (a ∷ b ∷ []) h =
    rw
      (
        sign_ascii (a / 4) (first_lt a h.0),
        sign_ascii (a % 4 * 16 + b / 16) (second_lt a (b / 16) (omega (arith, h.1.0))),
        sign_ascii (b % 16 * 4) (omega arith),
      )
      refl
all_ascii-bare (a ∷ b ∷ c ∷ rest) h =
    rw
      (
        sign_ascii (a / 4) (first_lt a h.0),
        sign_ascii (a % 4 * 16 + b / 16) (second_lt a (b / 16) (omega (arith, h.1.0))),
        sign_ascii (b % 16 * 4 + c / 64) (third_lt b (c / 64) (omega (arith, h.1.1.0))),
        sign_ascii (c % 64) (omega arith),
      )
      (all_ascii-bare rest h.1.1.1)

-- A text without padding, as the cursors have it.
abbrev pub unpadded : List ℕ → Text
unpadded bs = rstrip_equals (urlsafe_b64encode bs)

unpadded-bare : (bs : List ℕ) → Bytes bs → unpadded bs ≡ bare bs
unpadded-bare bs h = ap rstrip_equals (encode-bare bs) ∙ rstrip-bare bs (pads_of bs) h

padded_lem :
    (bs : List ℕ)
    → Bytes bs
    → unpadded bs ++ padding (unpadded bs) ≡ bare bs ++ equals_signs (pads_of bs)
unfolding padding
padded_lem bs h = rw (unpadded-bare bs h, pads_lem bs) refl

-- Bytes are got back: encoded, without their padding, and decoded with the padding put back.
pub urlsafe_b64decode-unpadded :
    (bs : List ℕ) → Bytes bs → urlsafe_b64decode (unpadded bs ++ padding (unpadded bs)) ≡ bytes bs
unfolding urlsafe_b64decode
urlsafe_b64decode-unpadded bs h =
    let ascii : all_ascii (bare bs ++ equals_signs (pads_of bs)) ≡ true = ground (
      arith,
      all_ascii-append (bare bs) (equals_signs (pads_of bs)),
      all_ascii-bare bs h,
      all_ascii-equals_signs (pads_of bs),
    ) in
    rw (padded_lem bs h, ascii, scan-bare bs h) refl

-- What is encoded of at least one byte is not empty.
pub unpadded-ne : (b : ℕ) (bs : List ℕ) → Bytes (b ∷ bs) → is_empty (unpadded (b ∷ bs)) ≡ false
unpadded-ne b [] h = rw (unpadded-bare (b ∷ []) h) refl
unpadded-ne b (c ∷ []) h = rw (unpadded-bare (b ∷ c ∷ []) h) refl
unpadded-ne b (c ∷ d ∷ rest) h = rw (unpadded-bare (b ∷ c ∷ d ∷ rest) h) refl
