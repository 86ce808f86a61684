-- ===== src/Frame/Scan.antt =====
-- The header of a written frame of src/process_io.c, as src/process_frame.c reads it.
use asterism_astools.Prelude.{ℕ, zero, suc, ◌+◌, ◌-◌, ◌≤◌, ◌<◌, ◌≡◌, refl, sym, ap, ◌∙◌, inl, inr}
use asterism_astools.Prelude.{true, false, [], ◌∷◌, ◌++◌, arith}
use asterism_astools.Prelude.{Bool-cases}
use asterism_astools.Prelude.{length, take, All}
use asterism_astools.Prelude.{Bytes, within}
use asterism_astools.Frame.{header_cap, complete, partial, malformed, bad_byte, ends, find_header}

-- A byte of a line.
abbrev pub IsPrinted : ℕ → Type 0
IsPrinted c = within 32 126 c ≡ true

unfoldable onto : Bytes → Bytes → Bytes
onto [] before = before
onto (c ∷ t) before = onto t (c ∷ before)

length-onto : (t before : Bytes) → length (onto t before) ≡ length t + length before
unfolding onto
length-onto [] before = omega arith
length-onto (c ∷ t) before = length-onto t (c ∷ before) ∙ omega arith

printed_goes_on :
    (n c : ℕ) (before s : Bytes)
    → IsPrinted c
    → find_header (suc n) before (c ∷ s) ≡ find_header n (c ∷ before) s
unfolding find_header
printed_goes_on n c before s h = ground arith

find_header-printed :
    (t : Bytes) (m n : ℕ) (before s : Bytes)
    → m ≡ length t + n
    → All IsPrinted t
    → find_header m before (t ++ s) ≡ find_header n (onto t before) s
unfolding onto
find_header-printed [] m n before s e h = rw e (ap (λ k. find_header k before s) (omega arith))
find_header-printed (c ∷ t) zero n before s e h = absurd (omega arith)
find_header-printed (c ∷ t) (suc m) n before s e (h, hs) =
    printed_goes_on m c before (t ++ s) h
    ∙ find_header-printed t m n (c ∷ before) s (omega arith) hs

-- No end of a header comes before the first line is over.
onto_last :
    (t before : Bytes) (c : ℕ)
    → All IsPrinted (c ∷ t)
    → (d : ℕ) × (w : Bytes) × (onto (c ∷ t) before ≡ d ∷ w) × IsPrinted d
unfolding onto
onto_last [] before c (h, hs) = (c, before, refl, h)
onto_last (d ∷ t) before c (h, hs) = onto_last t (c ∷ before) d hs

after_line :
    (n d : ℕ) (w s : Bytes)
    → IsPrinted d
    → find_header (suc (suc (suc (suc n)))) (d ∷ w) (13 ∷ 10 ∷ 13 ∷ 10 ∷ s)
      ≡ complete (suc (length w + 4))
unfolding find_header
after_line n d [] s h = ground arith
after_line n d (x ∷ w) s h = ground arith

-- The first loop on a header with one line.
pub find_header-line :
    (c : ℕ) (t s : Bytes)
    → All IsPrinted (c ∷ t)
    → length t + 5 ≤ header_cap
    → find_header header_cap [] ((c ∷ t) ++ 13 ∷ 10 ∷ 13 ∷ 10 ∷ s) ≡ complete (length t + 5)
find_header-line c t s h room =
    let (d, w, e, printed) = onto_last t [] c h in
    let n = header_cap - (length t + 5) in
    let long : length (onto (c ∷ t) []) ≡ suc (length t) = length-onto (c ∷ t) [] ∙ omega arith in
    find_header-printed (c ∷ t) header_cap (suc (suc (suc (suc n)))) [] (13 ∷ 10 ∷ 13 ∷ 10 ∷ s)
      (omega arith) h
    ∙ ap (λ u. find_header (suc (suc (suc (suc n)))) u (13 ∷ 10 ∷ 13 ∷ 10 ∷ s)) e
    ∙ after_line n d w s printed
    ∙ ap complete (omega (arith, long, ap length e))

malformed_clash : {h : ℕ} → malformed ≡ complete h → ⊥
malformed_clash e = cc

complete_inj : {h k : ℕ} → complete h ≡ complete k → h ≡ k
complete_inj e = cc

module _ (n c : ℕ) (before s : Bytes) where
  bad_step : bad_byte c ≡ true → find_header (suc n) before (c ∷ s) ≡ malformed
  unfolding find_header
  bad_step bad = rw bad refl

  module _ (good : bad_byte c ≡ false) where
    over_step :
        ends (c ∷ before) ≡ true
        → find_header (suc n) before (c ∷ s) ≡ complete (suc (length before))
    unfolding find_header
    over_step over = rw (good, over) refl

    open_step :
        ends (c ∷ before) ≡ false
        → find_header (suc n) before (c ∷ s) ≡ find_header n (c ∷ before) s
    unfolding find_header
    open_step goes_on = rw (good, goes_on) refl

-- Before the end of the header there is none.
pub find_header-prefix :
    (n : ℕ) (before s : Bytes) (k h : ℕ)
    → find_header n before s ≡ complete h
    → k + length before < h
    → find_header n before (take k s) ≡ partial
unfolding find_header
find_header-prefix zero before s k h e fewer = refl
find_header-prefix (suc n) before [] zero h e fewer = refl
find_header-prefix (suc n) before [] (suc k) h e fewer = refl
find_header-prefix (suc n) before (c ∷ s) zero h e fewer = refl
find_header-prefix (suc n) before (c ∷ s) (suc k) h e fewer = elim (Bool-cases (bad_byte c)) [
  | inl bad ↦ absurd (malformed_clash (sym (bad_step n c before s bad) ∙ e))
  | inr good ↦ elim (Bool-cases (ends (c ∷ before))) [
    | inl over ↦ absurd (omega (arith, complete_inj (sym (over_step n c before s good over) ∙ e)))
    | inr goes_on ↦
        open_step n c before (take k s) good goes_on
        ∙ find_header-prefix n (c ∷ before) s k h (sym (open_step n c before s good goes_on) ∙ e)
            (omega arith)
  ]
]
