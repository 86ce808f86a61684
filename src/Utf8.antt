-- ===== src/Utf8.antt =====
-- src/utf8.c: the length of the UTF-8 sequence at the start of a buffer, and the validity of a
-- buffer. The buffer is the list of its bytes, so `avail` is the length of the list.
pub mod Spec
pub mod Sequences
pub mod Valid
use Prim.Native.Nat.{bit_and}
use asterism_astools.Prelude.{
  ℕ, zero, suc, Bool, true, false, not, ◌&&◌, ◌||◌, [], ◌∷◌, Bytes, ltb, ◌==◌, if◌then◌else◌,
  length, drop,
}

-- `(b & 0xC0) == 0x80`
abbrev pub is_continuation : ℕ → Bool
is_continuation b = bit_and b 0xC0 == 0x80

-- The branches on a lead byte `c`, with the bytes behind it.
seq_two : Bytes → ℕ
seq_two [] = 0
seq_two (b1 ∷ _) = if not (is_continuation b1) then 0 else 2

seq_three : ℕ → Bytes → ℕ
seq_three c (b1 ∷ b2 ∷ _) =
    if not (is_continuation b1) || not (is_continuation b2)
    then 0
    else if c == 0xE0 && ltb b1 0xA0
    then 0
    else if c == 0xED && ltb 0x9F b1
    then 0
    else 3
seq_three c _ = 0

seq_four : ℕ → Bytes → ℕ
seq_four c (b1 ∷ b2 ∷ b3 ∷ _) =
    if not (is_continuation b1) || not (is_continuation b2) || not (is_continuation b3)
    then 0
    else if c == 0xF0 && ltb b1 0x90
    then 0
    else if c == 0xF4 && ltb 0x8F b1
    then 0
    else 4
seq_four c _ = 0

-- `jx_utf8_seq`
unfoldable pub utf8_seq : Bytes → ℕ
unfolding seq_two seq_three seq_four
utf8_seq [] = 0
utf8_seq (c ∷ rest) =
    if ltb c 0x80
    then 1
    else if ltb c 0xC2
    then 0
    else if ltb c 0xE0
    then seq_two rest
    else if ltb c 0xF0
    then seq_three c rest
    else if ltb c 0xF5
    then seq_four c rest
    else 0

-- The loop of `jx_utf8_valid` from `s + i` on; each round takes a byte at least.
unfoldable pub utf8_valid_loop : ℕ → Bytes → Bool
utf8_valid_loop fuel [] = true
utf8_valid_loop zero (c ∷ rest) = false
utf8_valid_loop (suc fuel) (c ∷ rest) =
    let n = utf8_seq (c ∷ rest) in
    let more = utf8_valid_loop fuel (drop n (c ∷ rest)) in if n == 0 then false else more

-- `jx_utf8_valid`
unfoldable pub utf8_valid : Bytes → Bool
unfolding utf8_valid_loop
utf8_valid s = utf8_valid_loop (length s) s
