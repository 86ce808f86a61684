-- ===== src/Examples/Codecs.antt =====
-- Base64, UTF-8, durations and SHA-256 on concrete inputs.
use asterism_astools.Prelude.{ℕ, ◌≤◌, ◌≡◌, refl, ◌↔◌}
use asterism_astools.Prelude.{true, some, List, [], ◌∷◌, ◌++◌, arith}
use asterism_astools.Prelude.{All}
use asterism_astools.Prelude.{str_eq, codes}
use asterism_astools.Examples.{are_bytes-AreBytes}
use asterism_astools.Utf8.{utf8_valid}
use asterism_astools.Utf8.Spec.{IsScalar, encode_all}
use asterism_astools.Utf8.Valid.{utf8_valid_iff}
use asterism_astools.Base64.{
  base64_encode, base64_decode, padding, all_digits, decode_groups, decode_group, b64_val,
}
use asterism_astools.Base64.RoundTrip.{decode-encode}
use asterism_astools.Base64.Canonical.{encode-decode}
use asterism_astools.Duration.{
  int64_max, number, add, duration_parse_ms, number_loop, fraction_loop, decimal_part, unit_of,
  time_field, time_loop, time_part, date_part,
}
use asterism_astools.Duration.Decimal.{number_exact, add_exact}
use asterism_astools.Duration.Bounds.{duration_parse_ms-le}
use asterism_astools.Sha256.{sha256_init, sha256_update}
use asterism_astools.Sha256.Streaming.{sha256_update-append}
use asterism_astools.Sha256.{digest, sha256}
use asterism_astools.Sha256.Streaming.{feed_all}
use asterism_astools.Sha256.Padding.{padded, sha256-padded}
use asterism_astools.Prelude.{length, ◌%◌}

-- An "é" in two bytes.
utf8_valid_iff_example :
    (utf8_valid (0xc3 ∷ 0xa9 ∷ []) ≡ true)
    ↔ ((vs : List ℕ) × All IsScalar vs × (encode_all vs ≡ 0xc3 ∷ 0xa9 ∷ []))
utf8_valid_iff_example =
    utf8_valid_iff (0xc3 ∷ 0xa9 ∷ []) (are_bytes-AreBytes (0xc3 ∷ 0xa9 ∷ []) refl)

decode-encode_example : base64_decode (base64_encode (codes "Man!")) ≡ some (codes "Man!")
decode-encode_example = decode-encode (codes "Man!") (are_bytes-AreBytes (codes "Man!") refl)

decodes : base64_decode (codes "TWFuIQ==") ≡ some (codes "Man!")
unfolding base64_decode padding all_digits decode_groups decode_group b64_val
decodes = refl

encode-decode_example : base64_encode (codes "Man!") ≡ codes "TWFuIQ=="
encode-decode_example =
    encode-decode (codes "TWFuIQ==") (are_bytes-AreBytes (codes "TWFuIQ==") refl) decodes

number_exact_example : number (codes "0123" ++ codes "H") ≡ some (123, codes "H")
number_exact_example =
    number_exact (codes "0123") (codes "H") (refl, (refl, (refl, (refl, tt)))) (λ p. cc) refl

add_exact_example : add 1 2 60000 500 ≡ some 120501
add_exact_example = add_exact 1 2 60000 500 (omega arith) (omega arith)

parses : duration_parse_ms (codes "P1DT2H3.5S") ≡ some 93603500
unfolding duration_parse_ms number number_loop add fraction_loop decimal_part unit_of time_field
    time_loop time_part date_part str_eq
parses = refl

duration_parse_ms-le_example : 93603500 ≤ int64_max
duration_parse_ms-le_example = duration_parse_ms-le (codes "P1DT2H3.5S") 93603500 parses

sha256_update-append_example :
    sha256_update (sha256_update sha256_init (codes "ab")) (codes "c")
    ≡ sha256_update sha256_init (codes "abc")
sha256_update-append_example =
    sha256_update-append sha256_init (codes "ab") (codes "c") (omega arith)

sha256-padded_example :
    (sha256 (codes "abc") ≡ digest (feed_all sha256_init.absorber (padded (codes "abc"))).state)
    × (length (padded (codes "abc")) % 64 ≡ 0)
sha256-padded_example = sha256-padded (codes "abc")
