-- ===== src/Cursors/Sextets.antt =====
-- What is read of the signs of some bytes.
use problem_bulletin.Prelude.{
  ℕ, ◌+◌, ◌*◌, ◌/◌, ◌%◌, ◌==◌, ◌≡◌, ◌<◌, refl, ap, true, some, List, [], ◌∷◌, ◌++◌, ltb, All, arith,
  if◌then◌else◌,
}
use problem_bulletin.Prelude.Text.{Text}
use problem_bulletin.Cursors.Base64.{
  sign, equals_sign, urlsafe_b64encode, sextet, Quad, on_sign, none_read, one_read, two_read,
  three_read, emit, next, ends, more_pads, scan, equals_signs,
}

sextet-sign : (v : ℕ) → v < 64 → sextet (sign v) ≡ some v
sextet-sign v h = ground arith

pub sign_ascii : (v : ℕ) → v < 64 → ltb (sign v) 128 ≡ true
sign_ascii v h = ground arith

scan-sign :
    (q : Quad) (pads v : ℕ) (s : Text)
    → v < 64
    → scan q pads (sign v ∷ s) ≡ emit q v (scan (next q v) 0 s)
unfolding scan
scan-sign q pads v s h =
    ap
      (λ o.
        on_sign o (λ v. emit q v (scan (next q v) 0 s))
          (if sign v == equals_sign
            then (if ends q pads then some [] else scan q (more_pads q pads) s)
            else scan q pads s))
      (sextet-sign v h)

-- The bytes are below 256.
abbrev pub Bytes : List ℕ → Type 0
Bytes bs = All (λ b. b < 256) bs

-- What is read of three bytes' signs.
read_first : (a v : ℕ) → a < 256 → v < 16 → a / 4 * 4 + (a % 4 * 16 + v) / 16 ≡ a
read_first a v h k = omega arith

read_second :
    (a b v : ℕ) → b < 256 → v < 4 → (a % 4 * 16 + b / 16) % 16 * 16 + (b % 16 * 4 + v) / 4 ≡ b
read_second a b v h k = omega arith

read_third : (b c : ℕ) → c < 256 → (b % 16 * 4 + c / 64) % 4 * 64 + c % 64 ≡ c
read_third b c h = omega arith

-- The encoding without its padding.
abbrev pub bare : List ℕ → Text
bare [] = []
bare (a ∷ []) = sign (a / 4) ∷ sign (a % 4 * 16) ∷ []
bare (a ∷ b ∷ []) = sign (a / 4) ∷ sign (a % 4 * 16 + b / 16) ∷ sign (b % 16 * 4) ∷ []
bare (a ∷ b ∷ c ∷ rest) =
    sign (a / 4)
    ∷ sign (a % 4 * 16 + b / 16)
    ∷ sign (b % 16 * 4 + c / 64)
    ∷ sign (c % 64)
    ∷ bare rest

abbrev pub pads_of : List ℕ → ℕ
pads_of [] = 0
pads_of (a ∷ []) = 2
pads_of (a ∷ b ∷ []) = 1
pads_of (a ∷ b ∷ c ∷ rest) = pads_of rest

pub encode-bare : (bs : List ℕ) → urlsafe_b64encode bs ≡ bare bs ++ equals_signs (pads_of bs)
unfolding urlsafe_b64encode
encode-bare [] = refl
encode-bare (a ∷ []) = refl
encode-bare (a ∷ b ∷ []) = refl
encode-bare (a ∷ b ∷ c ∷ rest) = rw (encode-bare rest) refl

end_two : (left : ℕ) → scan (two_read left) 0 (equals_sign ∷ equals_sign ∷ []) ≡ some []
unfolding scan
end_two left = refl

end_three : (left : ℕ) → scan (three_read left) 0 (equals_sign ∷ []) ≡ some []
unfolding scan
end_three left = refl

scan_empty : scan none_read 0 [] ≡ some []
unfolding scan
scan_empty = refl

pub first_lt : (a : ℕ) → a < 256 → a / 4 < 64
first_lt a h = omega arith

pub second_lt : (a v : ℕ) → v < 16 → a % 4 * 16 + v < 64
second_lt a v h = omega arith

pub third_lt : (b v : ℕ) → v < 4 → b % 16 * 4 + v < 64
third_lt b v h = omega arith

pub scan-bare :
    (bs : List ℕ) → Bytes bs → scan none_read 0 (bare bs ++ equals_signs (pads_of bs)) ≡ some bs
scan-bare [] h = scan_empty
scan-bare (a ∷ []) h =
    let v = a % 4 * 16 in
    let v_lt : v < 64 = omega arith in
    let first : a / 4 * 4 + v / 16 ≡ a = omega (arith, h.0) in
    rw
      (
        scan-sign none_read 0 (a / 4) (sign v ∷ equals_signs 2) (first_lt a h.0),
        scan-sign (one_read (a / 4)) 0 v (equals_signs 2) v_lt,
        end_two (v % 16),
        first,
      )
      refl
scan-bare (a ∷ b ∷ []) h =
    let v = a % 4 * 16 + b / 16 in
    let w = b % 16 * 4 in
    let v_lt : v < 64 = second_lt a (b / 16) (omega (arith, h.1.0)) in
    let w_lt : w < 64 = omega arith in
    let first : a / 4 * 4 + v / 16 ≡ a = read_first a (b / 16) h.0 (omega (arith, h.1.0)) in
    let second : v % 16 * 16 + w / 4 ≡ b = omega (arith, h.1.0) in
    rw
      (
        scan-sign none_read 0 (a / 4) (sign v ∷ sign w ∷ equals_signs 1) (first_lt a h.0),
        scan-sign (one_read (a / 4)) 0 v (sign w ∷ equals_signs 1) v_lt,
        scan-sign (two_read (v % 16)) 0 w (equals_signs 1) w_lt,
        end_three (w % 4),
        first,
        second,
      )
      refl
scan-bare (a ∷ b ∷ c ∷ rest) h =
    let tail = bare rest ++ equals_signs (pads_of rest) in
    let v = a % 4 * 16 + b / 16 in
    let w = b % 16 * 4 + c / 64 in
    let v_lt : v < 64 = second_lt a (b / 16) (omega (arith, h.1.0)) in
    let w_lt : w < 64 = third_lt b (c / 64) (omega (arith, h.1.1.0)) in
    let x_lt : c % 64 < 64 = omega arith in
    let first : a / 4 * 4 + v / 16 ≡ a = read_first a (b / 16) h.0 (omega (arith, h.1.0)) in
    let second : v % 16 * 16 + w / 4 ≡ b =
      read_second a b (c / 64) h.1.0 (omega (arith, h.1.1.0)) in
    rw
      (
        scan-sign none_read 0 (a / 4) (sign v ∷ sign w ∷ sign (c % 64) ∷ tail) (first_lt a h.0),
        scan-sign (one_read (a / 4)) 0 v (sign w ∷ sign (c % 64) ∷ tail) v_lt,
        scan-sign (two_read (v % 16)) 0 w (sign (c % 64) ∷ tail) w_lt,
        scan-sign (three_read (w % 4)) 0 (c % 64) tail x_lt,
        scan-bare rest h.1.1.1,
        first,
        second,
        read_third b c h.1.1.0,
      )
      refl
