-- ===== src/Path/Canonical.antt =====
-- The result of `astools_path_canonical`.
use asterism_astools.Prelude.{ℕ, zero, suc, ◌≤◌, ◌≡◌, refl, sym, ap, ◌∙◌, ◌≢◌, ◌⊎◌, inl, inr}
use asterism_astools.Prelude.{Bool, true, false, not, ◌&&◌, List, [], ◌∷◌, ◌++◌, arith}
use asterism_astools.Prelude.{◌==◌, if◌then◌else◌, Bool-cases}
use asterism_astools.Prelude.{length, All-append, list_cases, All}
use asterism_astools.Prelude.{Bytes, str_eq, peek, advance, ok, bind-eq-ok}
use mathlib.Core.List.{append_assoc, append-nil}
use asterism_astools.Prelude.{Result-cases}
use mathlib.Core.List.{reverse, reverse-cons}
use asterism_astools.Path.{
  slash, last_byte, append_comp, append_tail, Resolved, resolved, os_realpath, strip_last, climb,
  walk_up, drop_trailing, squeeze_loop, canonical_missing, canonical_squeezed, path_canonical,
  path_squeeze, path_is_abs, path_join,
}
use asterism_astools.Path.Segments.{IsNameByte, IsSegment, flat, render, IsCanonical, flat-append}
use asterism_astools.Path.Strip.{IsText, strip_last-IsStripped}

last_byte-append :
    (xs : Bytes) (y : ℕ) (ys : Bytes) → last_byte (xs ++ (y ∷ ys)) ≡ last_byte (y ∷ ys)
last_byte-append [] y ys = refl
last_byte-append (x ∷ []) y ys = refl
last_byte-append (x ∷ z ∷ xs) y ys = last_byte-append (z ∷ xs) y ys

last_byte_name : (s : Bytes) → All IsNameByte s → (last_byte s == slash) ≡ false
last_byte_name [] h = refl
last_byte_name (c ∷ []) h = ground arith
last_byte_name (c ∷ d ∷ s) h = last_byte_name (d ∷ s) h.1

-- Only the root ends in a slash.
last_byte-flat :
    (s : Bytes) (ss : List Bytes)
    → All IsSegment (s ∷ ss)
    → (last_byte (flat (s ∷ ss)) == slash) ≡ false
unfolding flat
last_byte-flat s [] (h, _) = elim (list_cases s) [
  | inl e ↦ absurd (h.nonempty e)
  | inr (c, cs, e) ↦ rw append-nil (rw e (rw e at (last_byte_name s h.plain)))
]
last_byte-flat s (t ∷ ss) (h, hs) =
    rw (last_byte-append (slash ∷ s) slash (t ++ flat ss)) (last_byte-flat t ss hs)

append_comp-render :
    (ss : List Bytes) (t : Bytes)
    → All IsSegment ss
    → append_comp (render ss) t ≡ render (ss ++ t ∷ [])
unfolding append_comp render
append_comp-render [] t hs = unfold flat str_eq in rw append-nil
append_comp-render (s ∷ ss) t hs =
    rw (last_byte-flat s ss hs)
      (rw (flat-append (s ∷ ss) (t ∷ [])) (unfold flat str_eq in rw append-nil))

append_tail-render :
    (ss ts : List Bytes)
    → All IsSegment ss
    → All IsSegment ts
    → append_tail (render ss) ts ≡ render (ss ++ ts)
unfolding append_tail
append_tail-render ss [] hs ht = rw append-nil
append_tail-render ss (t ∷ ts) hs (ht, hts) = rw (append_comp-render ss t hs) (
    append_tail-render (ss ++ t ∷ []) ts (All-append IsSegment ss (t ∷ []) hs (ht, tt)) hts
    ∙ rw append_assoc)

module _ (realpath : Bytes → Resolved) where
  -- What the walk found: an ancestor that exists, with proper components below it.
  record IsAncestor (canon : Bytes) (tail : List Bytes) : Type 0 where
    ancestor : Bytes
    exists : realpath ancestor ≡ resolved canon
    segments : All IsSegment tail

  os_realpath_ok : (r : Resolved) {p : Bytes} → os_realpath r ≡ ok p → r ≡ resolved p
  unfolding os_realpath
  os_realpath_ok (resolved q) e = cc
  os_realpath_ok _ e = cc

  walk_up-IsAncestor :
      (fuel : ℕ) (work : Bytes) (tail : List Bytes) {canon : Bytes} {tail' : List Bytes}
      → IsText work
      → All IsSegment tail
      → walk_up realpath fuel work tail ≡ ok (canon, tail')
      → IsAncestor canon tail'
  unfolding walk_up climb
  walk_up-IsAncestor zero work tail h ht e = cc
  walk_up-IsAncestor (suc fuel) work tail {canon} {tail'} h ht e =
      let ((work', comp), strip, later) = bind-eq-ok (strip_last work) _ e in
      let stripped = strip_last-IsStripped work h strip in
      let ends : ((os_realpath (realpath work') ≡ ok canon) × (comp ∷ tail ≡ tail'))
          ⊎ (walk_up realpath fuel work' (comp ∷ tail) ≡ ok (canon, tail')) =
        ground arith in
      elim ends [
        | inl (found, same) ↦ record {
          ancestor = work';
          exists = os_realpath_ok (realpath work') found;
          segments = rw (← same) (stripped.segment, ht);
        }
        | inr more ↦
            walk_up-IsAncestor fuel work' (comp ∷ tail) stripped.text (stripped.segment, ht) more
      ]

  -- On a path without NUL the walk gives the same answer for any two numbers of rounds that are both at
  -- least the length of the path.
  pub walk_up_fuel :
      (fuel more : ℕ) (work : Bytes) (tail : List Bytes)
      → IsText work
      → length work ≤ fuel
      → length work ≤ more
      → walk_up realpath fuel work tail ≡ walk_up realpath more work tail
  unfolding walk_up
  walk_up_fuel zero zero work tail h l m = refl
  walk_up_fuel zero (suc more) [] tail h l m = unfold strip_last str_eq in refl
  walk_up_fuel (suc fuel) zero [] tail h l m = unfold strip_last str_eq in refl
  walk_up_fuel zero (suc more) (_ ∷ _) tail h l m = absurd (omega arith)
  walk_up_fuel (suc fuel) zero (_ ∷ _) tail h l m = absurd (omega arith)
  walk_up_fuel (suc fuel) (suc more) work tail h l m = elim (Result-cases (strip_last work)) [
    | inl ((work', comp), s) ↦
        let stripped = strip_last-IsStripped work h s in
        let later =
          walk_up_fuel fuel more work' (comp ∷ tail) stripped.text (omega (arith, stripped.shorter))
            (omega (arith, stripped.shorter)) in
        rw s (rw later)
    | inr (x, s) ↦ rw s
  ]

  canonical_missing-IsCanonical :
      (work : Bytes) {out : Bytes}
      → ((p q : Bytes) → realpath p ≡ resolved q → IsCanonical q)
      → IsText work
      → canonical_missing realpath work ≡ ok out
      → IsCanonical out
  unfolding canonical_missing
  canonical_missing-IsCanonical work {out} sound h e =
      let ((canon, tail), walked, later) =
        bind-eq-ok (walk_up realpath (length work) work []) _ e in
      let found = walk_up-IsAncestor (length work) work [] h tt walked in
      let (ss, segments, shape) = sound found.ancestor canon found.exists in
      let same : append_tail canon tail ≡ out = ground arith in
      (
        ss ++ tail,
        All-append IsSegment ss tail segments found.segments,
        sym (append_tail-render ss tail segments found.segments)
            ∙ ap (λ c. append_tail c tail) shape
            ∙ same,
      )

  canonical_squeezed-IsCanonical :
      (work : Bytes) (missing_ok : Bool) {out : Bytes}
      → ((p q : Bytes) → realpath p ≡ resolved q → IsCanonical q)
      → IsText work
      → canonical_squeezed realpath work missing_ok ≡ ok out
      → IsCanonical out
  unfolding canonical_squeezed
  canonical_squeezed-IsCanonical work missing_ok {out} sound h e =
      let ends : (os_realpath (realpath work) ≡ ok out)
          ⊎ (canonical_missing realpath work ≡ ok out) =
        ground arith in
      elim ends [
        | inl found ↦ sound work out (os_realpath_ok (realpath work) found)
        | inr missing ↦ canonical_missing-IsCanonical work sound h missing
      ]

drop_trailing-IsText : (s : Bytes) → IsText s → IsText (drop_trailing s)
unfolding drop_trailing
drop_trailing-IsText [] h = tt
drop_trailing-IsText (c ∷ []) h = h
drop_trailing-IsText (c ∷ d ∷ s) h = ground arith

squeeze_loop-IsText :
    (written s : Bytes) → IsText written → IsText s → IsText (squeeze_loop written s)
unfolding squeeze_loop
squeeze_loop-IsText written [] hw h = hw
squeeze_loop-IsText written (c ∷ rest) hw (h, hs) =
    elim (Bool-cases (c == slash && peek written == slash)) [
      | inl e ↦ rw e (squeeze_loop-IsText written rest hw hs)
      | inr e ↦ rw e (squeeze_loop-IsText (c ∷ written) rest (h, hw) hs)
    ]

reverse-IsText : (s : Bytes) → IsText s → IsText (reverse s)
reverse-IsText [] h = tt
reverse-IsText (c ∷ s) (h, hs) =
    rw (reverse-cons c s)
      (All-append (λ b. b ≢ 0) (reverse s) (c ∷ []) (reverse-IsText s hs) (h, tt))

path_squeeze-IsText : (s : Bytes) → IsText s → IsText (path_squeeze s)
unfolding path_squeeze
path_squeeze-IsText s h =
    let third : Bytes = advance (advance s) in
    let squeezed : (written rest : Bytes)
        → IsText written
        → IsText rest
        → IsText (reverse (drop_trailing (squeeze_loop written rest))) =
      λ written rest hw hr. reverse-IsText (drop_trailing (squeeze_loop written rest)) (
        drop_trailing-IsText (squeeze_loop written rest)
          (squeeze_loop-IsText written rest hw hr)) in
    elim (Bool-cases (peek s == slash && peek (advance s) == slash && not (peek third == slash))) [
      | inl e ↦ rw e (
          squeezed (slash ∷ slash ∷ []) third ((λ z. cc), ((λ z. cc), tt))
            (advance-IsText (advance s) (advance-IsText s h)))
      | inr e ↦ rw e (squeezed [] s tt h)
    ]
  where
    advance-IsText : (t : Bytes) → IsText t → IsText (advance t)
    advance-IsText [] k = tt
    advance-IsText (c ∷ t) k = k.1

path_join-IsText : (a b : Bytes) → IsText a → IsText b → IsText (path_join a b)
unfolding path_join
path_join-IsText [] b ha hb = hb
path_join-IsText (a ∷ cs) [] ha hb = ha
path_join-IsText (a ∷ cs) (b ∷ bs) ha hb =
    elim (Bool-cases (not (last_byte (a ∷ cs) == slash) && not (last_byte (a ∷ cs) == b'\\'))) [
      | inl e ↦ rw e (All-append (λ c. c ≢ 0) (a ∷ cs) (slash ∷ b ∷ bs) ha ((λ z. cc), hb))
      | inr e ↦ rw e (All-append (λ c. c ≢ 0) (a ∷ cs) (b ∷ bs) ha hb)
    ]

-- Where `realpath` answers with canonical absolute paths, so does `path_canonical` when it succeeds, on
-- every workspace and every path without a NUL: absolute or relative, existing or with a missing tail.
pub path_canonical-IsCanonical :
    (realpath : Bytes → Resolved) (workspace path : Bytes) (missing_ok : Bool) (out : Bytes)
    → ((p q : Bytes) → realpath p ≡ resolved q → IsCanonical q)
    → IsText workspace
    → IsText path
    → path_canonical realpath workspace path missing_ok ≡ ok out
    → IsCanonical out
unfolding path_canonical
path_canonical-IsCanonical realpath workspace path missing_ok out sound hw hp e =
    canonical_squeezed-IsCanonical realpath _ missing_ok sound
      (path_squeeze-IsText _ (absolute (path_is_abs path))) (ground arith)
  where
    absolute : (b : Bool) → IsText (if b then path else path_join workspace path)
    absolute true = hp
    absolute false = path_join-IsText workspace path hw hp
