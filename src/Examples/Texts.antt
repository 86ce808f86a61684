-- ===== src/Examples/Texts.antt =====
-- Versions, URIs and calls on concrete inputs.
use asterism_astools.Prelude.{◌≡◌, refl}
use asterism_astools.Prelude.{some, arith}
use asterism_astools.Prelude.{All}
use asterism_astools.Prelude.{codes}
use asterism_astools.Utf8.{utf8_valid, utf8_valid_loop, utf8_seq}
use asterism_astools.Semver.{
  Semver, before, semver_parse, semver_cmp, sv_number, sv_number_loop, in_field, start_field,
  dotted, prerelease_part, build_part, memcmp, compare_field, compare_fields, compare_prerelease,
  field, after_field, field_numeric, all_digits,
}
use asterism_astools.Semver.Order.{flip, semver_cmp-flip}
use asterism_astools.Uri.{lsp_uri, lsp_path, encode_path, encode_byte, is_plain}
use asterism_astools.Uri.RoundTrip.{IsPathByte, lsp_path-lsp_uri}
use asterism_astools.Callline.{Call, callline_parse}
use asterism_astools.Callline.Scan.{lines, first_call, callline_parse-first_call}

abbrev beta : Semver
beta = record { major = 1; minor = 2; patch = 3; prerelease = some (codes "beta.2") }

abbrev later : Semver
later = record { major = 1; minor = 2; patch = 3; prerelease = some (codes "beta.10") }

reads : semver_parse (codes "1.2.3-beta.2+build") ≡ some beta
unfolding semver_parse dotted sv_number sv_number_loop prerelease_part build_part start_field
    in_field
reads = refl

semver_cmp-flip_example : semver_cmp later beta ≡ flip (semver_cmp beta later)
semver_cmp-flip_example = semver_cmp-flip beta later

-- A numeric identifier counts as a number.
pre_releases_ordered : semver_cmp beta later ≡ before
unfolding semver_cmp compare_prerelease compare_fields compare_field field after_field field_numeric
    all_digits memcmp
pre_releases_ordered = refl

encodes : lsp_uri (codes "/a b") ≡ some (codes "file:///a%20b")
unfolding lsp_uri encode_path encode_byte is_plain utf8_valid utf8_valid_loop utf8_seq
encodes = refl

path_bytes : All IsPathByte (codes "/a b")
path_bytes = (
  (omega arith, (λ e. omega arith), (λ e. omega arith)),
  (
    (omega arith, (λ e. omega arith), (λ e. omega arith)),
    (
      (omega arith, (λ e. omega arith), (λ e. omega arith)),
      ((omega arith, (λ e. omega arith), (λ e. omega arith)), tt),
    ),
  ),
)

lsp_path-lsp_uri_example : lsp_path (codes "file:///a%20b") ≡ some (codes "/a b")
lsp_path-lsp_uri_example =
    lsp_path-lsp_uri (codes "/a b") (codes "file:///a%20b") path_bytes encodes

abbrev call : Call
call = record { ref = codes "fs@1.0"; command = codes "read"; args = codes "{p: {}}" }

callline_parse-first_call_example :
    callline_parse (codes "CALL fs.read {}") ≡ first_call (lines (codes "CALL fs.read {}"))
callline_parse-first_call_example = callline_parse-first_call (codes "CALL fs.read {}")
