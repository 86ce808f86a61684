-- ===== src/Base64/Values.antt =====
-- The alphabet as a table, and the packing of a group in 24 bits.
use asterism_astools.Prelude.{ℕ, ◌+◌, ◌*◌, ◌/◌, ◌%◌, ◌^◌, ◌<◌, ◌≡◌, refl, ◌≢◌}
use asterism_astools.Prelude.{true, ◌||◌, arith}
use asterism_astools.Prelude.{◌==◌, ==_iff, agree_below, agree_below→eq}
use asterism_astools.Prelude.{get_or}
use Prim.Native.Nat.{bit_and, bit_or}
use asterism_astools.Prelude.Bits.{bit_or_disjoint, bit_and_mask}
use asterism_astools.Base64.{alphabet, digit_at, b64_val, minus_one, shl32}

unfoldable pub letter : ℕ → ℕ
letter i = get_or alphabet i 0

b64_val-letter_table : (i : ℕ) → i < 64 → (b64_val (letter i) == i) ≡ true
unfolding agree_below b64_val letter
b64_val-letter_table = agree_below→eq _ (λ _. true) 64 refl

-- The two tables are inverse.
pub b64_val-letter : (i : ℕ) → i < 64 → b64_val (letter i) ≡ i
b64_val-letter i h = (==_iff _ i).0 (b64_val-letter_table i h)

letter-b64_val_table :
    (c : ℕ) → c < 256 → ((b64_val c == minus_one) || (letter (b64_val c) == c)) ≡ true
unfolding agree_below b64_val letter
letter-b64_val_table = agree_below→eq _ (λ _. true) 256 refl

pub letter-b64_val : (c : ℕ) → c < 256 → b64_val c ≢ minus_one → letter (b64_val c) ≡ c
letter-b64_val c h k = ground (arith, letter-b64_val_table c h)

pub b64_val-lt : (c : ℕ) → b64_val c ≢ minus_one → b64_val c < 64
unfolding b64_val
b64_val-lt c h = ground arith

pub b64_val_pad : b64_val b'=' ≡ minus_one
unfolding b64_val
b64_val_pad = refl

pub digit_at-letter : (v place : ℕ) → digit_at v place ≡ letter (v / 2 ^ (6 * place) % 64)
unfolding digit_at letter
digit_at-letter v place = rw (bit_and_mask 6 (v / 2 ^ (6 * place)))

pub pack_bytes :
    (a b c : ℕ)
    → b < 256
    → c < 256
    → bit_or (bit_or (a * 2 ^ 16) (b * 2 ^ 8)) c ≡ a * 65536 + b * 256 + c
pack_bytes a b c hb hc =
    ground (
      arith,
      bit_or_disjoint 16 (a * 2 ^ 16) (b * 2 ^ 8),
      bit_or_disjoint 8 (a * 65536 + b * 256) c,
    )

pub pack_two : (a b : ℕ) → b < 256 → bit_or (a * 2 ^ 16) (b * 2 ^ 8) ≡ a * 65536 + b * 256
pack_two a b hb = ground (arith, bit_or_disjoint 16 (a * 2 ^ 16) (b * 2 ^ 8))

pub pack_digits_two :
    (a b : ℕ) → a < 64 → b < 64 → bit_or (shl32 a 18) (shl32 b 12) ≡ a * 262144 + b * 4096
pack_digits_two a b ha hb =
    ground (arith, bit_or_disjoint 18 (a * 2 ^ 18 % 2 ^ 32) (b * 2 ^ 12 % 2 ^ 32))

pub pack_digits_three :
    (a b c : ℕ)
    → a < 64
    → b < 64
    → c < 64
    → bit_or (bit_or (shl32 a 18) (shl32 b 12)) (shl32 c 6) ≡ a * 262144 + b * 4096 + c * 64
pack_digits_three a b c ha hb hc =
    rw (pack_digits_two a b ha hb)
      (ground (arith, bit_or_disjoint 12 (a * 262144 + b * 4096) (c * 2 ^ 6 % 2 ^ 32)))

pub pack_digits :
    (a b c d : ℕ)
    → a < 64
    → b < 64
    → c < 64
    → d < 64
    → bit_or (bit_or (bit_or (shl32 a 18) (shl32 b 12)) (shl32 c 6)) d
      ≡ a * 262144 + b * 4096 + c * 64 + d
pack_digits a b c d ha hb hc hd =
    rw (pack_digits_three a b c ha hb hc)
      (ground (arith, bit_or_disjoint 6 (a * 262144 + b * 4096 + c * 64) d))

pub bit_and_three : (c : ℕ) → bit_and c 3 ≡ c % 4
bit_and_three c = bit_and_mask 2 c

pub bit_and_fifteen : (b : ℕ) → bit_and b 15 ≡ b % 16
bit_and_fifteen b = bit_and_mask 4 b
