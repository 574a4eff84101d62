-- ===== src/Contract/Wire/Examples.antt =====
-- The source's wire vectors, and the round trips at values of its tests.
use phenix_ai.Prelude.{ℕ, ◌≡◌, refl, List, [], ◌∷◌, arith}
use phenix_ai.Prelude.Order.{compare_text, ascii}
use phenix_ai.Contract.Failure.{ok, err, invalid}
use phenix_ai.Contract.Value.{Value, i64, u64, bytes, map, end, entry, utf8_from}
use phenix_ai.Contract.Wire.{
  put, encode, encode_schema, decode, decode_schema, read_value, read_bytes, read_length, read_word,
  read_text, read_tagged, read_entries,
}
use phenix_ai.Contract.Wire.Bytes.{to_be_bytes, from_be_bytes}
use phenix_ai.Contract.Wire.Spec.{IsValue}
use phenix_ai.Contract.Wire.RoundTrip.{decode-encode, encode-decode}

-- `Value::map([("z", Bytes([0, 255])), ("a", I64(-4))])`
abbrev sample : Value
sample =
    map
      (entry (ascii "a") (i64 0xffff_ffff_ffff_fffc) (entry (ascii "z") (bytes (0 ∷ 255 ∷ [])) end))

abbrev sample_sent : List ℕ
sample_sent =
    0x50 ∷ 0x56 ∷ 2 ∷ 0 ∷ 8 ∷ 0 ∷ 0 ∷ 0 ∷ 2 ∷ 0 ∷ 0 ∷ 0 ∷ 1 ∷ 97 ∷ 3 ∷ 255 ∷ 255 ∷ 255 ∷ 255 ∷ 255
    ∷ 255 ∷ 255 ∷ 252 ∷ 0 ∷ 0 ∷ 0 ∷ 1 ∷ 122 ∷ 6 ∷ 0 ∷ 0 ∷ 0 ∷ 2 ∷ 0 ∷ 255 ∷ []

encode_one : encode (u64 1) ≡ ok (0x50 ∷ 0x56 ∷ 2 ∷ 0 ∷ 4 ∷ 0 ∷ 0 ∷ 0 ∷ 0 ∷ 0 ∷ 0 ∷ 0 ∷ 1 ∷ [])
unfolding encode encode_schema put to_be_bytes
encode_one = refl

encode-sample : encode sample ≡ ok sample_sent
unfolding encode encode_schema put to_be_bytes
encode-sample = refl

decode-sample : decode sample_sent ≡ ok sample
unfolding decode decode_schema read_value read_bytes read_length read_word read_text read_tagged
    read_entries from_be_bytes utf8_from compare_text
decode-sample = refl

-- A repeated key is refused.
decode_duplicate :
    decode (
      0x50 ∷ 0x56 ∷ 2 ∷ 0 ∷ 8 ∷ 0 ∷ 0 ∷ 0 ∷ 2 ∷ 0 ∷ 0 ∷ 0 ∷ 1 ∷ 97 ∷ 0 ∷ 0 ∷ 0 ∷ 0 ∷ 1 ∷ 97 ∷ 0
      ∷ [])
    ≡ err (invalid "unordered or duplicate map key")
unfolding decode decode_schema read_value read_bytes read_length read_word read_text read_tagged
    read_entries from_be_bytes utf8_from compare_text
decode_duplicate = refl

decode-encode_example : decode sample_sent ≡ ok sample
unfolding IsValue utf8_from compare_text
decode-encode_example =
    decode-encode sample sample_sent
      (
        tt,
        ((omega arith, tt), refl),
        omega arith,
        (refl, ((omega arith, tt), refl), (omega arith, (omega arith, tt)), tt),
      )
      encode-sample

encode-decode_example : (encode sample ≡ ok sample_sent) × IsValue sample
encode-decode_example = encode-decode sample_sent sample (omega arith) decode-sample
