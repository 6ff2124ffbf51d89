-- ===== src/Cursors/Signed.antt =====
-- Cursors with a signature.
use problem_bulletin.Prelude.{
  ℕ, ◌≡◌, ◌≢◌, refl, ap, ◌∙◌, inl, inr, Bool, true, false, ◌&&◌, none, some, List, [], ◌∷◌, arith,
  if◌then◌else◌, Bool-cases,
}
use problem_bulletin.Prelude.Text.{Text, is_empty, text_eq, text_eq_iff}
use problem_bulletin.Cursors.Base64.{Decoded, bytes, binascii_error, not_ascii, all_ascii}
use problem_bulletin.Cursors.Sextets.{Bytes}
use problem_bulletin.Cursors.Plain.{decode_raw-encode_raw, encode_raw-ne}
use problem_bulletin.Cursors.{
  encode_raw, decode_raw, arm_mismatch, bad_signature, Envelope, envelope, unreadable, payload,
  refused, encode_signed_cursor, compare_digest, judge, verify, verify_decoded,
  decode_signed_cursor,
}

module _ {P : Type 0} (hmac_sig : Text → Text → P → Text) (loads : List ℕ → Envelope P) where
  decode_nonempty :
      (arm s secret : Text)
      → is_empty s ≡ false
      → decode_signed_cursor hmac_sig loads arm s secret
        ≡ verify_decoded hmac_sig loads arm secret (decode_raw s)
  unfolding decode_signed_cursor
  decode_nonempty arm [] secret h = ground (arith, h)
  decode_nonempty arm (c ∷ s) secret h = refl

  decoded_payload :
      (arm s secret : Text) (p : P)
      → decode_signed_cursor hmac_sig loads arm s secret ≡ payload p
      → verify_decoded hmac_sig loads arm secret (decode_raw s) ≡ payload p
  unfolding decode_signed_cursor
  decoded_payload arm [] secret p h = absurd cc
  decoded_payload arm (c ∷ s) secret p h = h

  judged_some :
      (p q : P) (ascii agree : Bool)
      → judge q (if ascii then some agree else none) ≡ payload p
      → (q ≡ p) × (agree ≡ true)
  judged_some p q true true h = (cc, refl)
  judged_some p q true false h = absurd cc
  judged_some p q false agree h = absurd cc

  judged :
      (p q : P) (expected got : Text)
      → judge q (compare_digest expected got) ≡ payload p
      → (q ≡ p) × (expected ≡ got)
  judged p q expected got h =
      let (same, agree) =
        judged_some p q (all_ascii expected && all_ascii got) (text_eq expected got) h in
      (same, (text_eq_iff expected got).0 agree)

  verified :
      (arm secret : Text) (p : P) (e : Envelope P)
      → verify hmac_sig arm secret e ≡ payload p
      → e ≡ envelope arm p (hmac_sig secret arm p)
  unfolding verify
  verified arm secret p (unreadable r) h = absurd cc
  verified arm secret p (envelope got_arm q got_sig) h = elim (Bool-cases (text_eq got_arm arm)) [
    | inl e ↦
        let arms : got_arm ≡ arm = (text_eq_iff got_arm arm).0 e in
        let (same, agree) = judged p q (hmac_sig secret arm q) got_sig cc in cc
    | inr e ↦ absurd cc
  ]

  from_decoded :
      (arm secret : Text) (p : P) (d : Decoded)
      → verify_decoded hmac_sig loads arm secret d ≡ payload p
      → (raw : List ℕ) × (d ≡ bytes raw) × (loads raw ≡ envelope arm p (hmac_sig secret arm p))
  from_decoded arm secret p (bytes raw) h = (raw, refl, verified arm secret p (loads raw) h)
  from_decoded arm secret p binascii_error h = absurd cc
  from_decoded arm secret p not_ascii h = absurd cc

  -- Whatever text is given as a cursor: a payload is answered only if the text holds an envelope of
  -- the expected arm with this payload and the signature of the two under the secret.
  pub decode_signed-authentic :
      (arm cursor secret : Text) (p : P)
      → decode_signed_cursor hmac_sig loads arm cursor secret ≡ payload p
      → (raw : List ℕ) × (decode_raw cursor ≡ bytes raw)
        × (loads raw ≡ envelope arm p (hmac_sig secret arm p))
  decode_signed-authentic arm cursor secret p h =
      from_decoded arm secret p (decode_raw cursor) (decoded_payload arm cursor secret p h)

module _ {P : Type 0} (hmac_sig : Text → Text → P → Text) (dumps : Text → P → Text → List ℕ)
    (loads : List ℕ → Envelope P) where
  -- What the code relies on in an envelope: its signature is ASCII, as hexadecimal digits are, and
  -- its JSON is some bytes and is read back.
  pub record IsSigned (secret arm : Text) (p : P) : Type 0 where
    pub sig_ascii : all_ascii (hmac_sig secret arm p) ≡ true
    pub dumps_bytes : Bytes (dumps arm p (hmac_sig secret arm p))
    pub dumps_ne : dumps arm p (hmac_sig secret arm p) ≢ []
    pub loads_dumps :
        loads (dumps arm p (hmac_sig secret arm p)) ≡ envelope arm p (hmac_sig secret arm p)

  module _ (arm arm' : Text) (p : P) (secret secret' : Text) (signed : IsSigned secret arm p)
      (other_ascii : all_ascii (hmac_sig secret' arm' p) ≡ true) where
    verify_lem : verify hmac_sig arm' secret' (envelope arm p (hmac_sig secret arm p)) ≡ (
        if text_eq arm arm'
        then (if text_eq (hmac_sig secret' arm' p) (hmac_sig secret arm p)
            then payload p
            else refused bad_signature)
        else refused arm_mismatch)
    unfolding verify
    verify_lem = ground (arith, signed.sig_ascii, other_ascii)

    -- A cursor that is signed for an arm with a secret, and is decoded for an arm with a secret: if
    -- the arms differ, it is refused as of another arm; if not, its payload is answered where the two
    -- secrets give one signature of it, as one secret does, and else it is refused for its
    -- signature. It takes that both signatures are ASCII and that the JSON of the
    -- envelope is at least one byte and is read back.
    pub decode_signed-encode_signed :
        decode_signed_cursor hmac_sig loads arm'
          (encode_signed_cursor hmac_sig dumps arm p secret)
          secret'
        ≡ (if text_eq arm arm'
            then (if text_eq (hmac_sig secret' arm' p) (hmac_sig secret arm p)
                then payload p
                else refused bad_signature)
            else refused arm_mismatch)
    unfolding encode_signed_cursor
    decode_signed-encode_signed =
        let raw = dumps arm p (hmac_sig secret arm p) in
        decode_nonempty hmac_sig loads arm' (encode_raw raw) secret'
          (encode_raw-ne raw signed.dumps_bytes signed.dumps_ne)
        ∙ ap (verify_decoded hmac_sig loads arm' secret')
            (decode_raw-encode_raw raw signed.dumps_bytes)
        ∙ ap (verify hmac_sig arm' secret') signed.loads_dumps
        ∙ verify_lem
