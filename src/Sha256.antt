-- ===== src/Sha256.antt =====
-- src/sha256.c: the streaming SHA-256. A `uint32_t` is a number below 2 ^ 32 with its wrap-around
-- written out; the first `buflen` bytes of the buffer are a list. Pointers are not null.
pub mod Transform
pub mod Streaming
pub mod Padding
mod Vectors
use asterism_astools.Prelude.{
  ℕ, zero, suc, ◌+◌, ◌-◌, ◌*◌, ◌/◌, ◌%◌, ◌^◌, ◌≤◌, ◌<◌, ◌≡◌, refl, sym, ap, ◌∙◌, ◌≢◌, ◌↔◌, ◌⊎◌, inl,
  inr,
}
use asterism_astools.Prelude.{
  Bool, true, false, not, ◌&&◌, ◌||◌, Option, none, some, List, [], ◌∷◌, ◌++◌, map, arith,
}
use asterism_astools.Prelude.{
  ltb, leb, ◌==◌, if◌then◌else◌, ltb→lt, lt→ltb, leb→le, ==_iff, tests, Bool-cases, some_inj,
  bool_clash, Option-cases, agree_below, agree_below→eq,
}
use asterism_astools.Prelude.{
  length, get_elem?, get_or, take, drop, replicate, length-append, take-append-drop,
  drop-append_length, All-drop, All-append, zero_or_suc, list_cases, length_pos, length-take,
  length-drop, All,
}
use asterism_astools.Prelude.{
  Bytes, AreBytes, str_eq, str_eq_iff, str_eq_refl, codes, peek, advance, within, is_digit, Result,
  ok, err, Err, Result-cases, bind-eq-ok, ◌>>=◌,
}
use asterism_astools.Sha256.Transform.{Words, transform, words}

-- What the blocks and the bytes between two blocks come to: `state`, and `buffer` up to `buflen`.
pub record Absorber : Type 0 where
  pub state : Words
  pub buffer : Bytes

-- `astools_sha256_ctx`
pub record Context : Type 0 where
  pub absorber : Absorber
  pub bitlen : ℕ

-- `astools_sha256_init`
abbrev pub sha256_init : Context
sha256_init = record {
  absorber = record {
    state = record {
      a = 0x6a09e667;
      b = 0xbb67ae85;
      c = 0x3c6ef372;
      d = 0xa54ff53a;
      e = 0x510e527f;
      f = 0x9b05688c;
      g = 0x1f83d9ab;
      h = 0x5be0cd19;
    };
    buffer = [];
  };
  bitlen = 0;
}

-- `sha256_transform` on a full buffer, which is then empty.
unfoldable pub flush : Absorber → Absorber
flush s =
    if length s.buffer == 64 then record { state = transform s.state s.buffer; buffer = [] } else s

abbrev pub smaller : ℕ → ℕ → ℕ
smaller x y = if ltb y x then y else x

-- One round of the loop of `astools_sha256_update`: the context, and what is left of the input.
unfoldable pub absorb_round : Absorber → Bytes → Absorber × Bytes
absorb_round s p =
    if length s.buffer == 0 && leb 64 (length p)
    then (record s { state = transform s.state (take 64 p) }, drop 64 p)
    else (let n = smaller (64 - length s.buffer) (length p) in
        (flush (record s { buffer = s.buffer ++ take n p }), drop n p))

-- The loop. Each round takes a byte at least.
unfoldable pub absorb : ℕ → Absorber → Bytes → Absorber
absorb fuel s [] = s
absorb zero s (x ∷ p) = s
absorb (suc fuel) s (x ∷ p) = let (s', rest) = absorb_round s (x ∷ p) in absorb fuel s' rest

-- `astools_sha256_update`
unfoldable pub sha256_update : Context → Bytes → Context
sha256_update c p = record {
  absorber = absorb (length p) c.absorber p;
  bitlen = (c.bitlen + length p * 8 % 2 ^ 64) % 2 ^ 64;
}

-- `while (ctx->buflen != 56) astools_sha256_update(ctx, &zero, 1)`
unfoldable pub pad_zeros : ℕ → Context → Context
pad_zeros zero c = c
pad_zeros (suc fuel) c =
    let more = pad_zeros fuel (sha256_update c (0 ∷ [])) in
    if length c.absorber.buffer == 56 then c else more

-- The big-endian bytes of a number, `n` of them.
unfoldable pub big_endian : ℕ → ℕ → Bytes
big_endian zero v = []
big_endian (suc n) v = v / 2 ^ (8 * n) % 256 ∷ big_endian n v

unfoldable pub digest : Words → Bytes
digest s =
    big_endian 4 s.a
    ++ (big_endian 4 s.b
        ++ (big_endian 4 s.c
            ++ (big_endian 4 s.d
                ++ (big_endian 4 s.e
                    ++ (big_endian 4 s.f ++ (big_endian 4 s.g ++ big_endian 4 s.h))))))

-- `astools_sha256_final`: at most 64 zeros are wanted.
unfoldable pub sha256_final : Context → Bytes
sha256_final c =
    let padded = pad_zeros 64 (sha256_update c (0x80 ∷ [])) in
    digest (sha256_update padded (big_endian 8 c.bitlen)).absorber.state

-- `astools_sha256`
unfoldable pub sha256 : Bytes → Bytes
sha256 p = sha256_final (sha256_update sha256_init p)
