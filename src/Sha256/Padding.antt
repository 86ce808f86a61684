-- ===== src/Sha256/Padding.antt =====
-- The padding of `astools_sha256_final`.
use asterism_astools.Prelude.{
  ℕ, zero, suc, ◌+◌, ◌-◌, ◌*◌, ◌%◌, ◌^◌, ◌≤◌, ◌<◌, ◌≡◌, refl, sym, ap, ◌∙◌,
}
use asterism_astools.Prelude.{false, [], ◌∷◌, ◌++◌, arith}
use asterism_astools.Prelude.{◌==◌}
use asterism_astools.Prelude.{length, replicate, length-append}
use asterism_astools.Prelude.{Bytes}
use asterism_astools.Prelude.{length-replicate}
use asterism_astools.Sha256.{
  Absorber, Context, sha256_init, flush, sha256_update, pad_zeros, big_endian, digest, sha256_final,
  sha256,
}
use asterism_astools.Sha256.Streaming.{feed, feed_all, feed_all-append, update_absorbs}

length-feed :
    (s : Absorber) (x : ℕ)
    → length s.buffer < 64
    → length (feed s x).buffer ≡ (length s.buffer + 1) % 64
unfolding feed flush
length-feed s x h = ground (arith, length-append s.buffer (x ∷ []))

length-feed_all :
    (s : Absorber) (p : Bytes)
    → length s.buffer < 64
    → length (feed_all s p).buffer ≡ (length s.buffer + length p) % 64
unfolding feed_all
length-feed_all s [] h = omega arith
length-feed_all s (x ∷ p) h =
    length-feed_all (feed s x) p (omega (arith, length-feed s x h))
    ∙ omega (arith, length-feed s x h)

-- The loop appends the zeros that are missing up to 56 bytes, fewer than 64.
pad_zeros-feed_all :
    (k fuel : ℕ) (c : Context)
    → length c.absorber.buffer < 64
    → k < 64
    → k ≤ fuel
    → (length c.absorber.buffer + k) % 64 ≡ 56
    → (pad_zeros fuel c).absorber ≡ feed_all c.absorber (replicate k 0)
unfolding pad_zeros feed_all
pad_zeros-feed_all zero zero c h small l e = refl
pad_zeros-feed_all zero (suc fuel) c h small l e = ground arith
pad_zeros-feed_all (suc k) zero c h small l e = absurd (omega arith)
pad_zeros-feed_all (suc k) (suc fuel) c h small l e =
    let next = sha256_update c (0 ∷ []) in
    let fed : next.absorber ≡ feed c.absorber 0 = update_absorbs c (0 ∷ []) h in
    let counted : length next.absorber.buffer ≡ (length c.absorber.buffer + 1) % 64 =
      ap (λ s. length s.buffer) fed ∙ length-feed c.absorber 0 h in
    let open_still : (length c.absorber.buffer == 56) ≡ false = ground arith in
    rw open_still (
      pad_zeros-feed_all k fuel (sha256_update c (0 ∷ [])) (omega arith) (omega arith) (omega arith)
        (omega arith)
      ∙ ap (λ s. feed_all s (replicate k 0)) fed)

-- The zeros behind the byte 0x80, for a message of `n` bytes.
abbrev pub zeros : ℕ → ℕ
zeros n = (119 - n % 64) % 64

-- The message with the byte 0x80, zeros, and its length in bits in 8 bytes, modulo 2 ^ 64.
abbrev pub padded : Bytes → Bytes
padded p = p ++ (0x80 ∷ (replicate (zeros (length p)) 0 ++ big_endian 8 (length p * 8 % 2 ^ 64)))

length-big_endian : (n v : ℕ) → length (big_endian n v) ≡ n
unfolding big_endian
length-big_endian zero v = refl
length-big_endian (suc n) v = ap suc (length-big_endian n v)

length-padded : (p : Bytes) → length (padded p) % 64 ≡ 0
length-padded p =
    let tail : Bytes = replicate (zeros (length p)) 0 ++ big_endian 8 (length p * 8 % 2 ^ 64) in
    omega (
      arith,
      length-append p (0x80 ∷ tail),
      length-append (replicate (zeros (length p)) 0) (big_endian 8 (length p * 8 % 2 ^ 64)),
      length-replicate {A = ℕ} (zeros (length p)) 0,
      length-big_endian 8 (length p * 8 % 2 ^ 64),
    )

-- The four steps of the hash are one.
feed_all-padded :
    (s : Absorber) (p : Bytes)
    → feed_all
        (feed_all (feed (feed_all s p) 0x80) (replicate (zeros (length p)) 0))
        (big_endian 8 (length p * 8 % 2 ^ 64))
      ≡ feed_all s (padded p)
unfolding feed_all
feed_all-padded s p =
    sym (
      feed_all-append (feed (feed_all s p) 0x80) (replicate (zeros (length p)) 0)
        (big_endian 8 (length p * 8 % 2 ^ 64)))
    ∙ sym (
        feed_all-append s p
          (0x80 ∷ (replicate (zeros (length p)) 0 ++ big_endian 8 (length p * 8 % 2 ^ 64))))

feed_one :
    (c : Context)
    → length c.absorber.buffer < 64
    → (sha256_update c (0x80 ∷ [])).absorber ≡ feed c.absorber 0x80
unfolding feed_all
feed_one c h = update_absorbs c (0x80 ∷ []) h

room_below : (s : Absorber) (n : ℕ) → length s.buffer ≡ n % 64 → length s.buffer < 64
room_below s n e = omega arith

bits_counted : (p : Bytes) → (sha256_update sha256_init p).bitlen ≡ length p * 8 % 2 ^ 64
unfolding sha256_update
bits_counted p = omega arith

-- The hash of a message is the digest of the state after its padded form, whose length is a
-- multiple of the block, was fed byte by byte.
pub sha256-padded :
    (p : Bytes)
    → (sha256 p ≡ digest (feed_all sha256_init.absorber (padded p)).state)
      × (length (padded p) % 64 ≡ 0)
unfolding sha256 sha256_final
sha256-padded p =
    let c : Context = sha256_update sha256_init p in
    let marked : Context = sha256_update c (0x80 ∷ []) in
    let filled : Context = pad_zeros 64 marked in
    let zs : Bytes = replicate (zeros (length p)) 0 in
    let start : c.absorber ≡ feed_all sha256_init.absorber p =
      update_absorbs sha256_init p (omega arith) in
    let start_length : length c.absorber.buffer ≡ length p % 64 =
      ap (λ s. length s.buffer) start
      ∙ length-feed_all sha256_init.absorber p (omega arith)
      ∙ omega arith in
    let mark : marked.absorber ≡ feed c.absorber 0x80 = feed_one c (omega arith) in
    let mark_length : length marked.absorber.buffer ≡ (length p + 1) % 64 =
      ap (λ s. length s.buffer) mark ∙ length-feed c.absorber 0x80 (omega arith) ∙ omega arith in
    let fill : filled.absorber ≡ feed_all marked.absorber zs =
      pad_zeros-feed_all (zeros (length p)) 64 marked (omega arith) (omega arith) (omega arith)
        (omega arith) in
    let fill_room : length filled.absorber.buffer < 64 =
      room_below filled.absorber (length marked.absorber.buffer + length zs)
        (ap (λ s. length s.buffer) fill ∙ length-feed_all marked.absorber zs (omega arith)) in
    (
      ap (λ s. digest s.state)
          (update_absorbs filled (big_endian 8 c.bitlen) fill_room
            ∙ ap (λ s. feed_all s (big_endian 8 c.bitlen))
                (fill ∙ ap (λ s. feed_all s zs) (mark ∙ ap (λ s. feed s 0x80) start))
            ∙ ap
                (λ n.
                  feed_all (feed_all (feed (feed_all sha256_init.absorber p) 0x80) zs)
                    (big_endian 8 n))
                (bits_counted p)
            ∙ feed_all-padded sha256_init.absorber p),
      length-padded p,
    )
