-- ===== src/Semver/Bounds.antt =====
-- What a parsed version is made of.
use asterism_astools.Prelude.{ℕ, ◌+◌, ◌-◌, ◌*◌, ◌≤◌, ◌≡◌, refl}
use asterism_astools.Prelude.{Option, none, some, [], ◌∷◌, arith}
use asterism_astools.Prelude.{Bytes}
use asterism_astools.Semver.{
  int64_max, sv_number_loop, sv_number, Semver, then_parse, dotted, prerelease_part, build_part,
  semver_parse,
}

then_parse_inv {ℓ κ} :
    {A : Type ℓ} {B : Type κ} (o : Option A) (f : A → Option B) {b : B}
    → then_parse o f ≡ some b
    → (a : A) × (o ≡ some a) × (f a ≡ some b)
then_parse_inv none f e = cc
then_parse_inv (some a) f e = (a, refl, e)

sv_number_loop-le :
    (v : ℕ) (s : Bytes) {w : ℕ} {rest : Bytes}
    → v ≤ int64_max
    → sv_number_loop v s ≡ some (w, rest)
    → w ≤ int64_max
unfolding sv_number_loop
sv_number_loop-le v [] h e = ground arith
sv_number_loop-le v (c ∷ s) {w} {rest} h e =
    ground (arith, sv_number_loop-le (v * 10 + (c - b'0')) s {w = w} {rest = rest})

sv_number-le : (s : Bytes) {w : ℕ} {rest : Bytes} → sv_number s ≡ some (w, rest) → w ≤ int64_max
unfolding sv_number
sv_number-le s {w} {rest} e = ground (arith, sv_number_loop-le 0 s {w = w} {rest = rest})

dotted-le : (s : Bytes) {w : ℕ} {rest : Bytes} → dotted s ≡ some (w, rest) → w ≤ int64_max
unfolding dotted
dotted-le s e =
    let ((v, after), first, last) = then_parse_inv (sv_number s) _ e in
    let bound = sv_number-le s first in ground arith

-- A version is only read when each of its three numbers fits an `int64_t`: the multiplications and
-- additions of the parser do not overflow.
pub semver_parse-le :
    (s : Bytes) (v : Semver)
    → semver_parse s ≡ some v
    → (v.major ≤ int64_max) × (v.minor ≤ int64_max) × (v.patch ≤ int64_max)
unfolding semver_parse
semver_parse-le s v e =
    let ((maj, s1), e1, r1) = then_parse_inv (dotted s) _ e in
    let ((min, s2), e2, r2) = then_parse_inv (dotted s1) _ r1 in
    let ((pat, s3), e3, r3) = then_parse_inv (sv_number s2) _ r2 in
    let ((pre, s4), e4, r4) = then_parse_inv (prerelease_part s3) _ r3 in
    let (s5, e5, r5) = then_parse_inv (build_part s4) _ r4 in
    let (same_major, same_minor, same_patch) : (v.major ≡ maj) × (v.minor ≡ min) × (v.patch ≡ pat) =
      (ground arith, ground arith, ground arith) in
    (
      rw same_major (dotted-le s e1),
      rw same_minor (dotted-le s1 e2),
      rw same_patch (sv_number-le s2 e3),
    )
