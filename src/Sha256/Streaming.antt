-- ===== src/Sha256/Streaming.antt =====
-- The loop of `astools_sha256_update` against a reading byte by byte.
use asterism_astools.Prelude.{
  ℕ, zero, suc, ◌+◌, ◌-◌, ◌≤◌, ◌<◌, ◌≡◌, refl, sym, ap, ◌∙◌, ◌≢◌, inl, inr,
}
use asterism_astools.Prelude.{◌&&◌, [], ◌∷◌, ◌++◌, arith}
use asterism_astools.Prelude.{leb, ◌==◌, Bool-cases}
use asterism_astools.Prelude.{
  length, take, drop, length-append, take-append-drop, length_pos, length-take, length-drop,
}
use asterism_astools.Prelude.{Bytes}
use mathlib.Core.List.{append-nil, append_assoc}
use asterism_astools.Sha256.{Absorber, Context, flush, smaller, absorb_round, absorb, sha256_update}
use asterism_astools.Sha256.Transform.{Words, transform}

-- The specification: one byte at a time, and a block is used up when it is full.
unfoldable pub feed : Absorber → ℕ → Absorber
feed s x = flush (record s { buffer = s.buffer ++ x ∷ [] })

unfoldable pub feed_all : Absorber → Bytes → Absorber
feed_all s [] = s
feed_all s (x ∷ p) = feed_all (feed s x) p

pub feed_all-append : (s : Absorber) (p q : Bytes) → feed_all s (p ++ q) ≡ feed_all (feed_all s p) q
unfolding feed_all
feed_all-append s [] q = refl
feed_all-append s (x ∷ p) q = feed_all-append (feed s x) p q

feed_keeps :
    (state : Words) (buffer : Bytes) (x : ℕ)
    → length buffer + 1 < 64
    → feed (record { state = state; buffer = buffer }) x
      ≡ record { state = state; buffer = buffer ++ x ∷ [] }
unfolding feed flush
feed_keeps state buffer x h = ground (arith, length-append buffer (x ∷ []))

feed_fills :
    (state : Words) (buffer : Bytes) (x : ℕ)
    → length buffer + 1 ≡ 64
    → feed (record { state = state; buffer = buffer }) x
      ≡ record { state = transform state (buffer ++ x ∷ []); buffer = [] }
unfolding feed flush
feed_fills state buffer x h = ground (arith, length-append buffer (x ∷ []))

feed_short :
    (state : Words) (buffer p : Bytes)
    → length buffer + length p < 64
    → feed_all (record { state = state; buffer = buffer }) p
      ≡ record { state = state; buffer = buffer ++ p }
unfolding feed_all
feed_short state buffer [] h = rw append-nil
feed_short state buffer (x ∷ p) h = rw (feed_keeps state buffer x (omega arith)) (
    feed_short state (buffer ++ x ∷ []) p (omega (arith, length-append buffer (x ∷ [])))
    ∙ rw append_assoc)

feed_block :
    (state : Words) (buffer p : Bytes)
    → p ≢ []
    → length buffer + length p ≡ 64
    → feed_all (record { state = state; buffer = buffer }) p
      ≡ record { state = transform state (buffer ++ p); buffer = [] }
unfolding feed_all
feed_block state buffer [] ne h = absurd (ne refl)
feed_block state buffer (x ∷ []) ne h = feed_fills state buffer x h
feed_block state buffer (x ∷ y ∷ p) ne h = rw (feed_keeps state buffer x (omega arith)) (
    feed_block state (buffer ++ x ∷ []) (y ∷ p) (λ q. cc)
      (omega (arith, length-append buffer (x ∷ [])))
    ∙ rw append_assoc)

feed_all_part :
    (s s' : Absorber) (n : ℕ) (p : Bytes)
    → feed_all s (take n p) ≡ s'
    → feed_all s p ≡ feed_all s' (drop n p)
feed_all_part s s' n p e =
    ap (feed_all s) (sym (take-append-drop n p))
    ∙ feed_all-append s (take n p) (drop n p)
    ∙ ap (λ t. feed_all t (drop n p)) e

not_nil : (n : ℕ) (p : Bytes) → length (take n p) ≢ 0 → take n p ≢ []
not_nil n p h q = h (ap length q)

-- A round of the loop feeds the bytes that it takes, and leaves room in the buffer.
record IsFed (s : Absorber) (p : Bytes) (s' : Absorber) (rest : Bytes) : Type 0 where
  room : length s'.buffer < 64
  shorter : length rest < length p
  fed : feed_all s p ≡ feed_all s' rest

IsFed-block :
    (s : Absorber) (n : ℕ) (p : Bytes)
    → 0 < n
    → n ≤ length p
    → length s.buffer + n ≡ 64
    → IsFed s p
        (record { state = transform s.state (s.buffer ++ take n p); buffer = [] })
        (drop n p)
IsFed-block s n p pos le e =
    let l : length (take n p) ≡ n = omega (arith, length-take n p) in
    record {
      room = omega arith;
      shorter = omega (arith, length-drop n p);
      fed =
          feed_all_part s (record { state = transform s.state (s.buffer ++ take n p); buffer = [] })
            n p
            (feed_block s.state s.buffer (take n p) (not_nil n p (λ z. omega arith)) (omega arith));
    }

IsFed-short :
    (s : Absorber) (n : ℕ) (p : Bytes)
    → 0 < n
    → n ≤ length p
    → length s.buffer + n < 64
    → IsFed s p (record { state = s.state; buffer = s.buffer ++ take n p }) (drop n p)
IsFed-short s n p pos le e =
    let l : length (take n p) ≡ n = omega (arith, length-take n p) in
    record {
      room = omega (arith, length-append s.buffer (take n p));
      shorter = omega (arith, length-drop n p);
      fed =
          feed_all_part s (record { state = s.state; buffer = s.buffer ++ take n p }) n p
            (feed_short s.state s.buffer (take n p) (omega arith));
    }

IsFed-flush :
    (s : Absorber) (n : ℕ) (p : Bytes)
    → 0 < n
    → n ≤ length p
    → length s.buffer + n ≤ 64
    → IsFed s p (flush (record { state = s.state; buffer = s.buffer ++ take n p })) (drop n p)
unfolding flush
IsFed-flush s n p pos le room =
    let l : length (s.buffer ++ take n p) ≡ length s.buffer + n =
      omega (arith, length-append s.buffer (take n p), length-take n p) in
    elim (Bool-cases (length (s.buffer ++ take n p) == 64)) [
      | inl full ↦ rw full (IsFed-block s n p pos le (ground arith))
      | inr part ↦ rw part (IsFed-short s n p pos le (ground arith))
    ]

IsFed-whole :
    (state : Words) (buffer p : Bytes)
    → length buffer ≡ 0
    → 64 ≤ length p
    → IsFed
        (record { state = state; buffer = buffer })
        p
        (record { state = transform state (take 64 p); buffer = buffer })
        (drop 64 p)
IsFed-whole state [] p e long =
    IsFed-block (record { state = state; buffer = [] }) 64 p (omega arith) long refl
IsFed-whole state (x ∷ b) p e long = absurd (omega arith)

smaller_bounds :
    (x y : ℕ) → 0 < x → 0 < y → (0 < smaller x y) × (smaller x y ≤ x) × (smaller x y ≤ y)
smaller_bounds x y h k = (ground arith, ground arith, ground arith)

absorb_round-IsFed :
    (s : Absorber) (p : Bytes)
    → length s.buffer < 64
    → p ≢ []
    → IsFed s p (absorb_round s p).0 (absorb_round s p).1
unfolding absorb_round
absorb_round-IsFed s p h ne = elim (Bool-cases (length s.buffer == 0 && leb 64 (length p))) [
  | inl whole ↦
      let none_kept : length s.buffer ≡ 0 = ground arith in
      let long : 64 ≤ length p = ground arith in
      rw whole (IsFed-whole s.state s.buffer p none_kept long)
  | inr part ↦
      let (takes, fits, stays) =
        smaller_bounds (64 - length s.buffer) (length p) (omega arith) (length_pos p ne) in
      rw part (
        IsFed-flush s (smaller (64 - length s.buffer) (length p)) p takes stays
          (omega (arith, fits)))
]

absorb-feed_all :
    (fuel : ℕ) (s : Absorber) (p : Bytes)
    → length s.buffer < 64
    → length p ≤ fuel
    → absorb fuel s p ≡ feed_all s p
unfolding absorb
absorb-feed_all fuel s [] h k = unfold feed_all in refl
absorb-feed_all zero s (x ∷ p) h k = absurd (omega arith)
absorb-feed_all (suc fuel) s (x ∷ p) h k =
    let f = absorb_round-IsFed s (x ∷ p) h (λ q. cc) in
    absorb-feed_all fuel (absorb_round s (x ∷ p)).0 (absorb_round s (x ∷ p)).1 f.room
      (omega (arith, f.shorter))
    ∙ sym f.fed

feed_room : (s : Absorber) (x : ℕ) → length s.buffer < 64 → length (feed s x).buffer < 64
unfolding feed flush
feed_room s x h = ground (arith, length-append s.buffer (x ∷ []))

feed_all_room :
    (s : Absorber) (p : Bytes) → length s.buffer < 64 → length (feed_all s p).buffer < 64
unfolding feed_all
feed_all_room s [] h = h
feed_all_room s (x ∷ p) h = feed_all_room (feed s x) p (feed_room s x h)

pub update_absorbs :
    (c : Context) (p : Bytes)
    → length c.absorber.buffer < 64
    → (sha256_update c p).absorber ≡ feed_all c.absorber p
unfolding sha256_update
update_absorbs c p h = absorb-feed_all (length p) c.absorber p h (omega arith)

update_counts :
    (c : Context) (p q : Bytes)
    → (sha256_update (sha256_update c p) q).bitlen ≡ (sha256_update c (p ++ q)).bitlen
unfolding sha256_update
update_counts c p q = omega (arith, length-append p q)

Context_eq : (c d : Context) → c.absorber ≡ d.absorber → c.bitlen ≡ d.bitlen → c ≡ d
Context_eq c d e f = cc

-- While the buffer is not full, as it is from `sha256_init` on, updating with `p` and then with `q` leaves the
-- same context as updating once with the two joined.
pub sha256_update-append :
    (c : Context) (p q : Bytes)
    → length c.absorber.buffer < 64
    → sha256_update (sha256_update c p) q ≡ sha256_update c (p ++ q)
sha256_update-append c p q h =
    let first = update_absorbs c p h in
    let room : length (sha256_update c p).absorber.buffer < 64 =
      rw first (feed_all_room c.absorber p h) in
    Context_eq (sha256_update (sha256_update c p) q) (sha256_update c (p ++ q))
      (update_absorbs (sha256_update c p) q room
        ∙ ap (λ s. feed_all s q) first
        ∙ sym (feed_all-append c.absorber p q)
        ∙ sym (update_absorbs c (p ++ q) h))
      (update_counts c p q)
