-- ===== src/Regex/Quantifiers.antt =====
-- What the parser of std/regex.c gives for a repetition.
use asterism_astools.Prelude.{ℕ, ◌+◌, ◌-◌, ◌*◌, ◌≤◌, ◌<◌}
use asterism_astools.Prelude.{Option, none, some, [], ◌∷◌, arith}
use asterism_astools.Prelude.{ltb, ◌==◌}
use asterism_astools.Prelude.{length}
use asterism_astools.Prelude.{Bytes, peek, advance, is_digit}
use asterism_astools.Prelude.{on_if, on_bool}
use asterism_astools.Regex.Parser.{max_count}
use asterism_astools.Regex.Atom.{uint_loop, parse_uint, Counts, second_count, braces, quantifier}
use asterism_astools.Regex.Sound.{Post, Post-good, Post-bad, Post-map, and_then-Post}
use asterism_astools.Regex.Atoms.{peek_is, advance-le}

uint_loop-Post :
    (v : ℕ) (p : Bytes)
    → v ≤ max_count
    → Post (λ (n, q). (n ≤ max_count) × (length q ≤ length p)) (uint_loop v p)
unfolding uint_loop
uint_loop-Post v [] h = Post-good _ _ (h, omega arith)
uint_loop-Post v (c ∷ p) h =
    on_bool (Post _) (is_digit c) _ _
      (λ digit.
        on_bool (Post _) (ltb max_count (v * 10 + (c - b'0'))) _ _ (λ e. Post-bad _ _ tt)
          λ e.
            Post-map _ _ _ (uint_loop-Post (v * 10 + (c - b'0')) p (ground arith))
              λ (n, q) (k, l). (k, omega arith))
      λ e. Post-good _ _ (h, omega arith)

parse_uint-Post :
    (p : Bytes) → Post (λ (n, q). (n ≤ max_count) × (length q ≤ length p)) (parse_uint p)
parse_uint-Post p =
    on_if (Post _) (is_digit (peek p)) _ _ (λ e. uint_loop-Post 0 p (omega arith))
      λ e. Post-bad _ _ tt

-- The counts are in order and not above their maximum, and at most `n` bytes are left.
abbrev pub AreCounts : ℕ → Counts → Type 0
AreCounts k (m, none, q) = (m ≤ max_count) × (length q ≤ k)
AreCounts k (m, some n, q) = ((m ≤ n) × (n ≤ max_count)) × (length q ≤ k)

second_count-Post :
    (k m : ℕ) (p : Bytes) → m ≤ max_count → length p ≤ k → Post (AreCounts k) (second_count m p)
unfolding second_count
second_count-Post k m p h l =
    on_if (Post _) (peek p == b'}') _ _ (λ e. Post-good _ _ (h, omega (arith, advance-le p)))
      λ e. and_then-Post _ (AreCounts k) _ _ (parse_uint-Post p) λ (n, q) (small, short).
        on_if (Post _) (peek q == b'}') _ _
          (λ e2.
            on_if (Post _) (ltb n m) _ _ (λ e3. Post-bad _ _ tt)
              λ e3. Post-good _ _ ((ground arith, small), omega (arith, advance-le q)))
          (λ e2. Post-bad _ _ tt)

braces-Post : (k : ℕ) (p : Bytes) → length p ≤ k → Post (AreCounts k) (braces p)
unfolding braces
braces-Post k p l = and_then-Post _ (AreCounts k) _ _ (parse_uint-Post p) λ (m, q) (small, short).
    on_if (Post _) (peek q == b'}') _ _
      (λ e. Post-good _ _ ((omega arith, small), omega (arith, advance-le q)))
      λ e.
        on_if (Post _) (peek q == b',') _ _
          (λ e2. second_count-Post k m (advance q) small (omega (arith, advance-le q)))
          λ e2. Post-bad _ _ tt

-- A repetition takes a byte at least.
abbrev pub IsQuantifier : Bytes → Option Counts → Type 0
IsQuantifier p none = Unit
IsQuantifier p (some counts) = (0 < length p) × AreCounts (length p - 1) counts

pub quantifier-Post : (p : Bytes) → Post (IsQuantifier p) (quantifier p)
unfolding quantifier
quantifier-Post p =
    on_if (Post _) (peek p == b'*') _ _
      (λ e. Post-good _ _ (
        omega (arith, peek_is p b'*' (omega arith) e),
        (omega arith, omega (arith, peek_is p b'*' (omega arith) e)),
      ))
      λ e1.
        on_if (Post _) (peek p == b'+') _ _
          (λ e. Post-good _ _ (
            omega (arith, peek_is p b'+' (omega arith) e),
            (omega arith, omega (arith, peek_is p b'+' (omega arith) e)),
          ))
          λ e2.
            on_if (Post _) (peek p == b'?') _ _
              (λ e. Post-good _ _ (
                omega (arith, peek_is p b'?' (omega arith) e),
                ((omega arith, omega arith), omega (arith, peek_is p b'?' (omega arith) e)),
              ))
              λ e3.
                on_if (Post _) (peek p == b'{') _ _
                  (λ e.
                    and_then-Post (AreCounts (length p - 1)) _ _ _
                      (braces-Post (length p - 1) (advance p)
                        (omega (arith, peek_is p b'{' (omega arith) e)))
                      λ counts h. Post-good _ _ (omega (arith, peek_is p b'{' (omega arith) e), h))
                  λ e4. Post-good _ _ tt
