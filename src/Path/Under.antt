-- ===== src/Path/Under.antt =====
-- `astools_path_under` in terms of the components of the two paths.
use asterism_astools.Prelude.{ℕ, ◌≡◌, refl, sym, ap, ◌∙◌, ◌≢◌, ◌↔◌, ◌⊎◌, inl, inr}
use asterism_astools.Prelude.{true, false, some, List, [], ◌∷◌, ◌++◌, arith}
use asterism_astools.Prelude.{◌==◌, if◌then◌else◌, bool_clash}
use asterism_astools.Prelude.{length, list_cases, All}
use asterism_astools.Prelude.{Bytes, peek}
use mathlib.Core.List.{append-nil, append_assoc}
use asterism_astools.Path.{slash, trim_end, trim_slashes, after_prefix, at_boundary, path_under}
use asterism_astools.Path.Segments.{IsNameByte, IsSegment, flat, render, IsCanonical, flat-append}

trim_end-append :
    (xs ys : Bytes) (d : ℕ) (more : Bytes)
    → trim_end ys ≡ d ∷ more
    → trim_end (xs ++ ys) ≡ xs ++ (d ∷ more)
unfolding trim_end
trim_end-append [] ys d more h = h
trim_end-append (c ∷ []) ys d more h = rw h
trim_end-append (c ∷ e ∷ xs) ys d more h = rw (trim_end-append (e ∷ xs) ys d more h)

trim_end_name : (s : Bytes) → All IsNameByte s → trim_end s ≡ s
unfolding trim_end
trim_end_name [] h = refl
trim_end_name (c ∷ []) h = ground arith
trim_end_name (c ∷ d ∷ s) h = rw (trim_end_name (d ∷ s) h.1)

trim_end-flat :
    (s : Bytes) (ss : List Bytes) → All IsSegment (s ∷ ss) → trim_end (s ++ flat ss) ≡ s ++ flat ss
unfolding flat
trim_end-flat s [] (h, _) = rw append-nil (trim_end_name s h.plain)
trim_end-flat s (t ∷ ss) (h, hs) = elim (list_cases t) [
  | inl e ↦ absurd (hs.0.nonempty e)
  | inr (d, more, e) ↦
      let inner : trim_end (slash ∷ (t ++ flat ss)) ≡ slash ∷ (t ++ flat ss) =
        rw e
          (trim_end-append (slash ∷ []) _ d (more ++ flat ss) (rw e at (trim_end-flat t ss hs))) in
      trim_end-append s _ slash (t ++ flat ss) inner
]

after_prefix-append : (xs ys : Bytes) → after_prefix xs (xs ++ ys) ≡ some ys
unfolding after_prefix
after_prefix-append [] ys = refl
after_prefix-append (x ∷ xs) ys = ground (arith, after_prefix-append xs ys)

-- A match up to a boundary matches the whole next component.
segment_step :
    (q p : Bytes) (qs ps : List Bytes)
    → All IsNameByte q
    → All IsNameByte p
    → at_boundary (after_prefix (q ++ flat qs) (p ++ flat ps)) ≡ true
    → (q ≡ p) × (at_boundary (after_prefix (flat qs) (flat ps)) ≡ true)
unfolding after_prefix at_boundary flat
segment_step [] [] qs ps hq hp h = (refl, h)
segment_step [] (d ∷ p) [] ps hq hp h = ground arith
segment_step [] (d ∷ p) (_ ∷ _) ps hq hp h = ground arith
segment_step (c ∷ q) [] qs [] hq hp h = ground arith
segment_step (c ∷ q) [] qs (_ ∷ _) hq hp h = ground arith
segment_step (c ∷ q) (d ∷ p) qs ps hq hp h = ground (arith, segment_step q p qs ps)

under_flat :
    (qs ps : List Bytes)
    → All IsSegment qs
    → All IsSegment ps
    → at_boundary (after_prefix (flat qs) (flat ps)) ≡ true
    → (rest : List Bytes) × (ps ≡ qs ++ rest)
under_flat [] ps hq hp h = (ps, refl)
under_flat (q ∷ qs) [] hq hp h = unfold flat after_prefix at_boundary in cc
under_flat (q ∷ qs) (p ∷ ps) hq hp h =
    let (same, later) = segment_step q p qs ps hq.0.plain hp.0.plain (open_step h) in
    let (rest, e) = under_flat qs ps hq.1 hp.1 later in (rest, cc)
  where
    open_step :
        at_boundary (after_prefix (flat (q ∷ qs)) (flat (p ∷ ps))) ≡ true
        → at_boundary (after_prefix (q ++ flat qs) (p ++ flat ps)) ≡ true
    open_step e = unfold flat after_prefix in ground arith

render_kept :
    (q : Bytes) (qs : List Bytes)
    → All IsSegment (q ∷ qs)
    → trim_slashes (render (q ∷ qs)) ≡ flat (q ∷ qs)
unfolding trim_slashes render flat
render_kept q qs h = ap (λ t. slash ∷ t) (trim_end-flat q qs h)

peek-render : (ss : List Bytes) → (peek (render ss) == slash) ≡ true
unfolding render flat
peek-render [] = refl
peek-render (s ∷ ss) = refl

-- On the render of a longer path the test is that of `after_prefix`.
path_under_cons :
    (p q : Bytes) (ps qs : List Bytes)
    → All IsSegment (q ∷ qs)
    → path_under (render (p ∷ ps)) (render (q ∷ qs))
      ≡ at_boundary (after_prefix (flat (q ∷ qs)) (flat (p ∷ ps)))
unfolding path_under
path_under_cons p q ps qs h =
    rw (peek-render (p ∷ ps), peek-render (q ∷ qs), render_kept q qs h) (longer q h.0.nonempty)
  where
    longer :
        (s : Bytes)
        → s ≢ []
        → (if length (flat (s ∷ qs)) == 1
            then true
            else at_boundary (after_prefix (flat (s ∷ qs)) (render (p ∷ ps))))
          ≡ at_boundary (after_prefix (flat (s ∷ qs)) (flat (p ∷ ps)))
    longer [] ne = absurd (ne refl)
    longer (c ∷ s) ne = unfold flat render in ground arith

path_under_root :
    (q : Bytes) (qs : List Bytes)
    → All IsSegment (q ∷ qs)
    → path_under (render []) (render (q ∷ qs)) ≡ false
unfolding path_under render flat
path_under_root q qs h = rw (peek-render (q ∷ qs), render_kept q qs h) (outside q h.0.nonempty)
  where
    outside :
        (s : Bytes)
        → s ≢ []
        → (if length (flat (s ∷ qs)) == 1
            then true
            else at_boundary (after_prefix (flat (s ∷ qs)) (render [])))
          ≡ false
    outside [] ne = absurd (ne refl)
    outside (c ∷ s) ne = unfold flat render after_prefix at_boundary in ground arith

segments_under :
    (ps qs : List Bytes)
    → All IsSegment ps
    → All IsSegment qs
    → path_under (render ps) (render qs) ≡ true
    → (rest : List Bytes) × (ps ≡ qs ++ rest)
segments_under ps [] hp hq e = (ps, refl)
segments_under [] (q ∷ qs) hp hq e = absurd (bool_clash (sym e ∙ path_under_root q qs hq))
segments_under (p ∷ ps) (q ∷ qs) hp hq e =
    under_flat (q ∷ qs) (p ∷ ps) hq hp (sym (path_under_cons p q ps qs hq) ∙ e)

under_segments :
    (qs rest : List Bytes) → All IsSegment qs → path_under (render (qs ++ rest)) (render qs) ≡ true
under_segments [] rest hq = rest_under rest
  where
    rest_under : (ps : List Bytes) → path_under (render ps) (render []) ≡ true
    rest_under [] = unfold path_under render trim_slashes trim_end in refl
    rest_under (p ∷ ps) = unfold path_under render trim_slashes trim_end flat in refl
under_segments (q ∷ qs) rest hq =
    path_under_cons q q (qs ++ rest) qs hq
    ∙ rw (flat-append (q ∷ qs) rest, after_prefix-append (flat (q ∷ qs)) (flat rest))
        (boundary rest)
  where
    boundary : (ss : List Bytes) → at_boundary (some (flat ss)) ≡ true
    boundary [] = unfold at_boundary flat in refl
    boundary (s ∷ ss) = unfold at_boundary flat in refl

-- Between canonical paths `path_under` answers true exactly when the components of the prefix are
-- the first components of the path: a directory contains itself and what lies below it, and
-- "/ab" does not lie under "/a".
pub path_under_iff :
    (ps qs : List Bytes)
    → All IsSegment ps
    → All IsSegment qs
    → (path_under (render ps) (render qs) ≡ true) ↔ ((rest : List Bytes) × (ps ≡ qs ++ rest))
path_under_iff ps qs hp hq =
    (segments_under ps qs hp hq, λ (rest, e). rw e (under_segments qs rest hq))

prefixes_comparable :
    (qs rs more rest : List Bytes)
    → qs ++ more ≡ rs ++ rest
    → ((t : List Bytes) × (qs ≡ rs ++ t)) ⊎ ((t : List Bytes) × (rs ≡ qs ++ t))
prefixes_comparable [] rs more rest e = inr (rs, refl)
prefixes_comparable (q ∷ qs) [] more rest e = inl (q ∷ qs, refl)
prefixes_comparable (q ∷ qs) (r ∷ rs) more rest e =
    elim (prefixes_comparable qs rs more rest (cc)) [
      | inl (t, p) ↦ inl (t, cc)
      | inr (t, p) ↦ inr (t, cc)
    ]

-- Containment between canonical paths is transitive.
pub path_under_trans :
    (p q r : Bytes)
    → IsCanonical p
    → IsCanonical q
    → IsCanonical r
    → path_under p q ≡ true
    → path_under q r ≡ true
    → path_under p r ≡ true
path_under_trans p q r (ps, hp, ep) (qs, hq, eq) (rs, hr, er) pq qr =
    let (t, e) = segments_under ps qs hp hq (rw (ep, eq) pq) in
    let (u, f) = segments_under qs rs hq hr (rw (eq, er) qr) in
    rw (← ep, ← er) (rw (e, f) (rw append_assoc (under_segments rs (u ++ t) hr)))

-- Two canonical paths that contain a third one are comparable.
pub path_under_comparable :
    (p q r : Bytes)
    → IsCanonical p
    → IsCanonical q
    → IsCanonical r
    → path_under p q ≡ true
    → path_under p r ≡ true
    → (path_under q r ≡ true) ⊎ (path_under r q ≡ true)
path_under_comparable p q r (ps, hp, ep) (qs, hq, eq) (rs, hr, er) pq pr =
    let (t, e) = segments_under ps qs hp hq (rw (ep, eq) pq) in
    let (u, f) = segments_under ps rs hp hr (rw (ep, er) pr) in
    elim (prefixes_comparable qs rs t u (sym e ∙ f)) [
      | inl (v, g) ↦ inl (rw (← eq, ← er) (rw g (under_segments rs v hr)))
      | inr (v, g) ↦ inr (rw (← eq, ← er) (rw g (under_segments qs v hq)))
    ]
