-- ===== src/Buffer/Growth.antt =====
-- The capacity and the bytes of a buffer that was appended to.
use asterism_astools.Prelude.{
  ℕ, zero, suc, ◌+◌, ◌*◌, ◌^◌, ◌≤◌, ◌<◌, ◌≡◌, refl, sym, ap, ◌∙◌, ◌⊎◌, inl, inr,
}
use asterism_astools.Prelude.{List, [], ◌∷◌, ◌++◌, arith}
use asterism_astools.Prelude.{◌==◌, if◌then◌else◌}
use asterism_astools.Prelude.{length, length-append}
use asterism_astools.Prelude.{Bytes, ok, bind-eq-ok}
use native.Mathlib.Nat.{pow-succ', mul_assoc}
use mathlib.Core.List.{append_assoc, append-nil}
use asterism_astools.Buffer.{size_max, Buf, buf_init, grow, buf_reserve, buf_append, append_all}

-- The data and the NUL fit the capacity, or nothing is allocated.
pub record IsBuffer (b : Buf) : Type 0 where
  pub roomy : (length b.data_bytes < b.cap) ⊎ ((length b.data_bytes ≡ 0) × (b.cap ≡ 0))
  pub addressable : b.cap ≤ size_max

grow-enough :
    (fuel cap need : ℕ)
    → need ≤ cap * 2 ^ fuel
    → need ≤ size_max
    → cap ≤ size_max
    → (need ≤ grow fuel cap need) × (grow fuel cap need ≤ size_max)
unfolding grow
grow-enough zero cap need h k c = (omega arith, c)
grow-enough (suc fuel) cap need h k c =
    let doubled : cap * 2 ^ suc fuel ≡ cap * 2 * 2 ^ fuel =
      ap (λ (t : ℕ). cap * t) (pow-succ' 2 fuel) ∙ sym (mul_assoc cap 2 (2 ^ fuel)) in
    ground (arith, grow-enough fuel (cap * 2) need (omega arith) k)

buf_reserve-IsBuffer :
    (b : Buf) (extra : ℕ) {b' : Buf}
    → IsBuffer b
    → buf_reserve b extra ≡ ok b'
    → (b'.data_bytes ≡ b.data_bytes) × (length b.data_bytes + extra < b'.cap) × (b'.cap ≤ size_max)
unfolding buf_reserve
buf_reserve-IsBuffer b extra {b'} h e =
    let need : ℕ = length b.data_bytes + extra + 1 in
    let first : ℕ = if b.cap == 0 then 64 else b.cap in
    let pos : 1 ≤ first = ground arith in
    let small : first ≤ size_max = ground (arith, h.addressable) in
    let fits : need ≤ size_max = ground (arith, h.roomy, h.addressable) in
    let enough = grow-enough 64 first need (omega arith) fits small in
    ground (arith, h.addressable, enough)

buf_append-IsBuffer :
    (b : Buf) (s : Bytes) {b' : Buf}
    → IsBuffer b
    → buf_append b s ≡ ok b'
    → IsBuffer b' × (b'.data_bytes ≡ b.data_bytes ++ s)
unfolding buf_append
buf_append-IsBuffer b s {b'} h e =
    let (r, reserved, last) = bind-eq-ok (buf_reserve b (length s)) _ e in
    let (kept, room, top) = buf_reserve-IsBuffer b (length s) h reserved in
    let same : record r { data_bytes = r.data_bytes ++ s } ≡ b' = cc in
    rw (← same) (
      record {
        roomy = inl (omega (arith, length-append r.data_bytes s, ap length kept));
        addressable = top;
      },
      ap (λ t. t ++ s) kept,
    )

abbrev pub joined : List Bytes → Bytes
joined [] = []
joined (s ∷ ss) = s ++ joined ss

append_all-joined_from :
    (b : Buf) (ss : List Bytes) {b' : Buf}
    → IsBuffer b
    → append_all b ss ≡ ok b'
    → IsBuffer b' × (b'.data_bytes ≡ b.data_bytes ++ joined ss)
unfolding append_all
append_all-joined_from b [] {b'} h e =
    let same : b ≡ b' = cc in rw (← same) (h, sym (append-nil b.data_bytes))
append_all-joined_from b (s ∷ ss) {b'} h e =
    let (next, first, later) = bind-eq-ok (buf_append b s) _ e in
    let (good, held) = buf_append-IsBuffer b s h first in
    let (final, rest) = append_all-joined_from next ss good later in
    (final, rest ∙ ap (λ t. t ++ joined ss) held ∙ append_assoc b.data_bytes s (joined ss))

-- From an empty buffer: when a sequence of appends succeeds, the data is the pieces joined, and it
-- fits the capacity with the NUL behind it, which a `size_t` holds.
pub append_all-joined :
    (ss : List Bytes) (b : Buf)
    → append_all buf_init ss ≡ ok b
    → IsBuffer b × (b.data_bytes ≡ joined ss)
append_all-joined ss b e =
    append_all-joined_from buf_init ss
      (record { roomy = inr (refl, refl); addressable = omega arith }) e
