-- ===== src/Cursors/Plain.antt =====
-- Cursors without a signature.
use problem_bulletin.Prelude.{
  ℕ, ◌≡◌, ◌≢◌, refl, ap, ◌∙◌, false, Option, none, some, List, [], ◌∷◌, arith,
}
use problem_bulletin.Prelude.Text.{Text, is_empty}
use problem_bulletin.Paging.{Key}
use problem_bulletin.Paging.Client.{Readable}
use problem_bulletin.Cursors.Base64.{bytes}
use problem_bulletin.Cursors.Sextets.{Bytes}
use problem_bulletin.Cursors.RoundTrip.{urlsafe_b64decode-unpadded, unpadded-ne}
use problem_bulletin.Cursors.{
  encode_raw, decode_raw, Loaded, loaded, Outcome, pair, invalid, raised, encode_cursor,
  decode_cursor, of_loaded, of_decoded,
}

pub decode_raw-encode_raw : (raw : List ℕ) → Bytes raw → decode_raw (encode_raw raw) ≡ bytes raw
unfolding decode_raw encode_raw
decode_raw-encode_raw raw h = urlsafe_b64decode-unpadded raw h

pub encode_raw-ne : (raw : List ℕ) → Bytes raw → raw ≢ [] → is_empty (encode_raw raw) ≡ false
unfolding encode_raw
encode_raw-ne [] h ne = absurd (ne refl)
encode_raw-ne (b ∷ raw) h ne = unpadded-ne b raw h

module _ (loads : List ℕ → Loaded) where
  -- `_decode_cursor` of the services: an answer, or an exception.
  abbrev pub answer : Outcome → Option Key
  answer (pair k) = some k
  answer invalid = none
  answer raised = none

  abbrev pub service_decode : Text → Option Key
  service_decode s = answer (decode_cursor loads (some s))

  decode_nonempty :
      (s : Text)
      → is_empty s ≡ false
      → decode_cursor loads (some s) ≡ of_decoded loads (decode_raw s)
  unfolding decode_cursor
  decode_nonempty [] h = ground (arith, h)
  decode_nonempty (c ∷ s) h = refl

module _ (dumps : Key → List ℕ) (loads : List ℕ → Loaded) where
  -- What the code relies on in the JSON of a payload: it is some bytes, and it is read back.
  pub record IsCodec : Type 0 where
    pub dumps_bytes : (k : Key) → Bytes (dumps k)
    pub dumps_ne : (k : Key) → dumps k ≢ []
    pub loads_dumps : (k : Key) → loads (dumps k) ≡ loaded k

  module _ (codec : IsCodec) where
    -- A cursor that `encode_cursor` makes of a time and an id is decoded to them by `decode_cursor`. It takes that the JSON of a
    -- payload is at least one byte and is read back as it was.
    pub decode_cursor-encode_cursor :
        (k : Key) → decode_cursor loads (some (encode_cursor dumps k)) ≡ pair k
    unfolding encode_cursor
    decode_cursor-encode_cursor k =
        decode_nonempty loads (encode_raw (dumps k))
          (encode_raw-ne (dumps k) (codec.dumps_bytes k) (codec.dumps_ne k))
        ∙ ap (of_decoded loads) (decode_raw-encode_raw (dumps k) (codec.dumps_bytes k))
        ∙ ap (of_loaded loads) (codec.loads_dumps k)

  pub cursors-Readable : IsCodec → Readable (service_decode loads) (encode_cursor dumps)
  unfolding decode_cursor
  cursors-Readable codec = record {
    round_trip = λ k. ap (answer loads) (decode_cursor-encode_cursor codec k);
    empty_text = refl;
  }
