-- ===== src/Sha256/Transform.antt =====
-- `sha256_transform` of src/sha256.c: one block of 64 bytes.
use asterism_astools.Prelude.{ℕ, zero, suc, ◌+◌, ◌-◌, ◌*◌, ◌/◌, ◌%◌, ◌^◌}
use asterism_astools.Prelude.{List, [], ◌∷◌}
use asterism_astools.Prelude.{get_or}
use asterism_astools.Prelude.{Bytes}
use mathlib.Core.List.{reverse}
use Prim.Native.Nat.{bit_and, bit_or, bit_xor}

-- The eight words of `state`, and the variables a to h of the rounds.
pub record Words : Type 0 where
  pub a : ℕ
  pub b : ℕ
  pub c : ℕ
  pub d : ℕ
  pub e : ℕ
  pub f : ℕ
  pub g : ℕ
  pub h : ℕ

abbrev round_constants : List ℕ
round_constants =
    0x428a2f98 ∷ 0x71374491 ∷ 0xb5c0fbcf ∷ 0xe9b5dba5 ∷ 0x3956c25b ∷ 0x59f111f1 ∷ 0x923f82a4
    ∷ 0xab1c5ed5 ∷ 0xd807aa98 ∷ 0x12835b01 ∷ 0x243185be ∷ 0x550c7dc3 ∷ 0x72be5d74 ∷ 0x80deb1fe
    ∷ 0x9bdc06a7 ∷ 0xc19bf174 ∷ 0xe49b69c1 ∷ 0xefbe4786 ∷ 0x0fc19dc6 ∷ 0x240ca1cc ∷ 0x2de92c6f
    ∷ 0x4a7484aa ∷ 0x5cb0a9dc ∷ 0x76f988da ∷ 0x983e5152 ∷ 0xa831c66d ∷ 0xb00327c8 ∷ 0xbf597fc7
    ∷ 0xc6e00bf3 ∷ 0xd5a79147 ∷ 0x06ca6351 ∷ 0x14292967 ∷ 0x27b70a85 ∷ 0x2e1b2138 ∷ 0x4d2c6dfc
    ∷ 0x53380d13 ∷ 0x650a7354 ∷ 0x766a0abb ∷ 0x81c2c92e ∷ 0x92722c85 ∷ 0xa2bfe8a1 ∷ 0xa81a664b
    ∷ 0xc24b8b70 ∷ 0xc76c51a3 ∷ 0xd192e819 ∷ 0xd6990624 ∷ 0xf40e3585 ∷ 0x106aa070 ∷ 0x19a4c116
    ∷ 0x1e376c08 ∷ 0x2748774c ∷ 0x34b0bcb5 ∷ 0x391c0cb3 ∷ 0x4ed8aa4a ∷ 0x5b9cca4f ∷ 0x682e6ff3
    ∷ 0x748f82ee ∷ 0x78a5636f ∷ 0x84c87814 ∷ 0x8cc70208 ∷ 0x90befffa ∷ 0xa4506ceb ∷ 0xbef9a3f7
    ∷ 0xc67178f2 ∷ []

abbrev add32 : ℕ → ℕ → ℕ
add32 x y = (x + y) % 2 ^ 32

-- `ROR`
ror : ℕ → ℕ → ℕ
ror x n = bit_or (x / 2 ^ n) (x * 2 ^ (32 - n) % 2 ^ 32)

-- A big-endian word of the block.
word_of : ℕ → ℕ → ℕ → ℕ → ℕ
word_of x0 x1 x2 x3 = bit_or (bit_or (bit_or (x0 * 2 ^ 24) (x1 * 2 ^ 16)) (x2 * 2 ^ 8)) x3

-- The first sixteen words.
unfoldable pub words : Bytes → List ℕ
unfolding word_of
words (x0 ∷ x1 ∷ x2 ∷ x3 ∷ rest) = word_of x0 x1 x2 x3 ∷ words rest
words _ = []

-- The next word; the list holds the words so far, the last one first.
next_word : List ℕ → ℕ
next_word w =
    let x = get_or w 14 0 in
    let y = get_or w 1 0 in
    let s0 = bit_xor (bit_xor (ror x 7) (ror x 18)) (x / 2 ^ 3) in
    let s1 = bit_xor (bit_xor (ror y 17) (ror y 19)) (y / 2 ^ 10) in
    add32 (add32 (add32 (get_or w 15 0) s0) (get_or w 6 0)) s1

extend : ℕ → List ℕ → List ℕ
extend zero w = w
extend (suc n) w = extend n (next_word w ∷ w)

round : Words → ℕ → ℕ → Words
round s k w =
    let s1 = bit_xor (bit_xor (ror s.e 6) (ror s.e 11)) (ror s.e 25) in
    let ch = bit_xor (bit_and s.e s.f) (bit_and (2 ^ 32 - 1 - s.e) s.g) in
    let t1 = add32 (add32 (add32 (add32 s.h s1) ch) k) w in
    let s0 = bit_xor (bit_xor (ror s.a 2) (ror s.a 13)) (ror s.a 22) in
    let maj = bit_xor (bit_xor (bit_and s.a s.b) (bit_and s.a s.c)) (bit_and s.b s.c) in
    let t2 = add32 s0 maj in
    record {
      a = add32 t1 t2;
      b = s.a;
      c = s.b;
      d = s.c;
      e = add32 s.d t1;
      f = s.e;
      g = s.f;
      h = s.g;
    }

rounds : Words → List ℕ → List ℕ → Words
rounds s (k ∷ ks) (w ∷ ws) = rounds (round s k w) ks ws
rounds s _ _ = s

unfoldable pub transform : Words → Bytes → Words
unfolding words next_word extend ror round rounds
transform s block =
    let w = reverse (extend 48 (reverse (words block))) in
    let t = rounds s round_constants w in
    record {
      a = add32 s.a t.a;
      b = add32 s.b t.b;
      c = add32 s.c t.c;
      d = add32 s.d t.d;
      e = add32 s.e t.e;
      f = add32 s.f t.f;
      g = add32 s.g t.g;
      h = add32 s.h t.h;
    }
