-- ===== src/Cursors.antt =====
-- app/services/_pagination.py: opaque cursors, and cursors with a signature. JSON, times, UUIDs and
-- HMAC are arguments; base64 is written out in Cursors/Base64.
pub mod Base64
pub mod Sextets
pub mod RoundTrip
pub mod Plain
pub mod Signed
use problem_bulletin.Prelude.{
  Bool, true, false, ◌&&◌, not, Option, none, some, List, [], ◌∷◌, ◌++◌, ℕ, if◌then◌else◌,
}
use problem_bulletin.Prelude.Text.{Text, text_eq}
use problem_bulletin.Paging.{Key}
use problem_bulletin.Cursors.Base64.{
  Decoded, bytes, binascii_error, not_ascii, urlsafe_b64encode, rstrip_equals, urlsafe_b64decode,
  padding, all_ascii,
}

-- `_b64.urlsafe_b64encode(raw).rstrip(b"=")`
unfoldable pub encode_raw : List ℕ → Text
encode_raw raw = rstrip_equals (urlsafe_b64encode raw)

-- `_b64.urlsafe_b64decode(c + pad)`
unfoldable pub decode_raw : Text → Decoded
decode_raw c = urlsafe_b64decode (c ++ padding c)

-- What reading a payload's bytes gives: the time and the id, an exception that `decode_cursor` catches
-- (`ValueError`, `KeyError`), or another (`TypeError` or `AttributeError`, where the JSON is no object or its fields are no texts).
pub data Loaded : Type 0 where
  loaded : Key → Loaded
  caught uncaught : Loaded

-- What `decode_cursor` does: a pair, None, or an exception that goes through.
pub data Outcome : Type 0 where
  pair : Key → Outcome
  invalid raised : Outcome

-- `encode_cursor`, with `dumps` for the bytes of the payload
unfoldable pub encode_cursor : (Key → List ℕ) → Key → Text
unfolding encode_raw
encode_cursor dumps k = encode_raw (dumps k)

module _ (loads : List ℕ → Loaded) where
  abbrev pub of_loaded : Loaded → Outcome
  of_loaded (loaded k) = pair k
  of_loaded caught = invalid
  of_loaded uncaught = raised

  abbrev pub of_decoded : Decoded → Outcome
  of_decoded (bytes raw) = of_loaded (loads raw)
  of_decoded binascii_error = invalid
  of_decoded not_ascii = raised

  -- `decode_cursor`
  unfoldable pub decode_cursor : Option Text → Outcome
  decode_cursor none = invalid
  decode_cursor (some []) = invalid
  decode_cursor (some (c ∷ s)) = of_decoded (decode_raw (c ∷ s))

-- The reasons of an `InvalidCursorError`.
pub data Reason : Type 0 where
  empty_cursor malformed_base64 malformed_json malformed_envelope missing_field malformed_types
        arm_mismatch bad_signature :
      Reason

-- What reading an envelope's bytes gives: its arm, payload and signature, or a reason.
pub data Envelope (P : Type 0) : Type 0 where
  envelope : Text → P → Text → Envelope P
  unreadable : Reason → Envelope P

-- What `decode_signed_cursor` does: a payload, `InvalidCursorError`, or another exception.
pub data Verdict (P : Type 0) : Type 0 where
  payload : P → Verdict P
  refused : Reason → Verdict P
  other_exception : Verdict P

-- `hmac.compare_digest` of texts raises on a sign outside ASCII.
abbrev pub compare_digest : Text → Text → Option Bool
compare_digest expected got =
    if all_ascii expected && all_ascii got then some (text_eq expected got) else none

abbrev pub judge : {P : Type 0} → P → Option Bool → Verdict P
judge p none = other_exception
judge p (some true) = payload p
judge p (some false) = refused bad_signature

module _ {P : Type 0} (hmac_sig : Text → Text → P → Text) where
  -- `encode_signed_cursor`, with `dumps` for the bytes of the envelope
  unfoldable pub encode_signed_cursor : (Text → P → Text → List ℕ) → Text → P → Text → Text
  unfolding encode_raw
  encode_signed_cursor dumps arm p secret = encode_raw (dumps arm p (hmac_sig secret arm p))

  -- The checks of the arm and of the signature.
  unfoldable pub verify : Text → Text → Envelope P → Verdict P
  verify arm secret (unreadable r) = refused r
  verify arm secret (envelope got_arm p got_sig) =
      if text_eq got_arm arm
      then judge p (compare_digest (hmac_sig secret arm p) got_sig)
      else refused arm_mismatch

  module _ (loads : List ℕ → Envelope P) where
    abbrev pub verify_decoded : Text → Text → Decoded → Verdict P
    verify_decoded arm secret (bytes raw) = verify arm secret (loads raw)
    verify_decoded arm secret binascii_error = refused malformed_base64
    verify_decoded arm secret not_ascii = other_exception

    -- `decode_signed_cursor`
    unfoldable pub decode_signed_cursor : Text → Text → Text → Verdict P
    decode_signed_cursor arm [] secret = refused empty_cursor
    decode_signed_cursor arm (c ∷ s) secret = verify_decoded arm secret (decode_raw (c ∷ s))
