-- ===== src/Examples/Codec.antt =====
-- Cursors under a payload codec, a signature and an envelope that are small enough to compute with.
use mathlib.Core.Path.{subst}
use mathlib.Core.List.{append-nil}
use problem_bulletin.Prelude.{
  ◌<◌, ltb, ℕ, zero, suc, ◌+◌, ◌≡◌, ◌≢◌, refl, ap, ◌∙◌, true, some, List, [], ◌∷◌, ◌++◌, length,
  arith,
}
use problem_bulletin.Prelude.Text.{Text, text, text_eq}
use problem_bulletin.Paging.{Key, take}
use problem_bulletin.Paging.Follow.{drop}
use problem_bulletin.Paging.Client.{Readable}
use problem_bulletin.Cursors.Base64.{bytes}
use problem_bulletin.Cursors.Sextets.{Bytes}
use problem_bulletin.Cursors.{
  Loaded, loaded, caught, pair, encode_cursor, decode_cursor, decode_raw, malformed_json,
  bad_signature, Envelope, envelope, unreadable, payload, refused, encode_signed_cursor,
  decode_signed_cursor,
}
use problem_bulletin.Cursors.Plain.{
  IsCodec, service_decode, cursors-Readable, decode_cursor-encode_cursor,
}
use problem_bulletin.Cursors.Signed.{IsSigned, decode_signed-encode_signed, decode_signed-authentic}

ones : ℕ → List ℕ
ones zero = []
ones (suc n) = 1 ∷ ones n

-- A time and an id as runs of ones with a zero between them.
abbrev pub dumps : Key → List ℕ
unfolding ones
dumps (t, i) = ones t ++ 0 ∷ ones i

read : ℕ → List ℕ → Loaded
read t [] = caught
read t (zero ∷ rest) = loaded (t, length rest)
read t (suc b ∷ rest) = read (suc t) rest

abbrev pub loads : List ℕ → Loaded
unfolding read
loads raw = read 0 raw

length-ones : (n : ℕ) → length (ones n) ≡ n
unfolding ones
length-ones zero = refl
length-ones (suc n) = ap suc (length-ones n)

plus_zero : (n : ℕ) → n ≡ n + 0
plus_zero n = omega arith

plus_suc : (n t : ℕ) → suc n + t ≡ n + suc t
plus_suc n t = omega arith

zero_plus : (n : ℕ) → 0 + n ≡ n
zero_plus n = omega arith

read-ones : (before t i : ℕ) → read before (ones t ++ 0 ∷ ones i) ≡ loaded (before + t, i)
unfolding ones read
read-ones before zero i =
    ap loaded (ap (λ n. (before, n)) (length-ones i) ∙ ap (λ n. (n, i)) (plus_zero before))
read-ones before (suc t) i =
    read-ones (suc before) t i ∙ ap loaded (ap (λ n. (n, i)) (plus_suc before t))

ones-Bytes : (t : ℕ) (rest : List ℕ) → Bytes rest → Bytes (ones t ++ rest)
unfolding ones
ones-Bytes zero rest h = h
ones-Bytes (suc t) rest h = (omega arith, ones-Bytes t rest h)

zero_lt : 0 < 256
zero_lt = omega arith

dumps_ne : (k : Key) → dumps k ≢ []
unfolding ones
dumps_ne (zero, i) e = absurd cc
dumps_ne (suc t, i) e = absurd cc

pub codec : IsCodec dumps loads
unfolding dumps ones loads read
codec = record {
  dumps_bytes = λ (t, i).
      ones-Bytes t (0 ∷ ones i) (zero_lt, subst Bytes (append-nil (ones i)) (ones-Bytes i [] tt));
  dumps_ne = dumps_ne;
  loads_dumps = λ (t, i). read-ones 0 t i ∙ ap loaded (ap (λ n. (n, i)) (zero_plus t));
}

pub readable : Readable (service_decode loads) (encode_cursor dumps)
readable = cursors-Readable dumps loads codec

decode_cursor-encode_cursor_example :
    decode_cursor loads (some (encode_cursor dumps (5, 2))) ≡ pair (5, 2)
decode_cursor-encode_cursor_example = decode_cursor-encode_cursor dumps loads codec (5, 2)

-- A signature of the secret and the arm, and an envelope that has the length of its arm.
abbrev sig : Text → Text → ℕ → Text
sig secret arm p = secret ++ arm

abbrev dumps_envelope : Text → ℕ → Text → List ℕ
dumps_envelope arm p s = p ∷ length arm ∷ arm ++ s

abbrev loads_envelope : List ℕ → Envelope ℕ
loads_envelope (p ∷ n ∷ rest) = envelope (take n rest) p (drop n rest)
loads_envelope _ = unreadable malformed_json

small : (n : ℕ) → ltb n 256 ≡ true → n < 256
small n h = ground (arith, h)

signed : IsSigned sig dumps_envelope loads_envelope (text "s") (text "a") 5
signed = record {
  sig_ascii = refl;
  dumps_bytes =
      (small 5 refl, (small 1 refl, (small 97 refl, (small 115 refl, (small 97 refl, tt)))));
  dumps_ne = λ e. absurd cc;
  loads_dumps = refl;
}

decode_signed-encode_signed_example :
    decode_signed_cursor sig loads_envelope
      (text "a")
      (encode_signed_cursor sig dumps_envelope (text "a") 5 (text "s"))
      (text "t")
    ≡ refused bad_signature
unfolding text_eq
decode_signed-encode_signed_example =
    decode_signed-encode_signed sig dumps_envelope loads_envelope (text "a") (text "a") 5 (text "s")
      (text "t") signed refl

accepted :
    decode_signed_cursor sig loads_envelope
      (text "a")
      (encode_signed_cursor sig dumps_envelope (text "a") 5 (text "s"))
      (text "s")
    ≡ payload 5
unfolding text_eq
accepted =
    decode_signed-encode_signed sig dumps_envelope loads_envelope (text "a") (text "a") 5 (text "s")
      (text "s") signed refl

decode_signed-authentic_example :
    (raw : List ℕ) × (decode_raw (encode_signed_cursor sig dumps_envelope (text "a") 5 (text "s"))
      ≡ bytes raw)
    × (loads_envelope raw ≡ envelope (text "a") 5 (sig (text "s") (text "a") 5))
decode_signed-authentic_example =
    decode_signed-authentic sig loads_envelope (text "a")
      (encode_signed_cursor sig dumps_envelope (text "a") 5 (text "s")) (text "s") 5 accepted
