-- ===== src/Path/Strip.antt =====
-- What `strip_last` of src/path.c leaves.
use asterism_astools.Prelude.{ℕ, ◌<◌, ◌≡◌, refl, sym, ap, ◌∙◌, ◌≢◌}
use asterism_astools.Prelude.{false, Option, none, some, [], ◌∷◌, ◌++◌, arith}
use asterism_astools.Prelude.{bool_clash}
use asterism_astools.Prelude.{length, length-append, length_pos, All}
use asterism_astools.Prelude.{Bytes, str_eq, str_eq_iff, codes, ok}
use asterism_astools.Prelude.{ℕ_discrete}
use asterism_astools.Path.{slash, comp_rejected, split_step, split_last, shortened, strip_last}
use asterism_astools.Path.Segments.{IsNameByte, IsSegment}

abbrev pub IsText : Bytes → Type 0
IsText = All (λ c. c ≢ 0)

-- The two parts make up the path again, and the second holds no slash.
IsSplit : Bytes → Option Bytes × Bytes → Type 0
IsSplit s (none, behind) = All IsNameByte behind × (s ≡ behind)
IsSplit s (some front, behind) =
    All IsNameByte behind × IsText front × (s ≡ front ++ (slash ∷ behind))

split_step-IsSplit :
    (c : ℕ) (rest : Bytes) (p : Option Bytes × Bytes)
    → c ≢ 0
    → IsSplit rest p
    → IsSplit (c ∷ rest) (split_step c p)
unfolding split_step IsSplit
split_step-IsSplit c rest (some front, behind) h (plain, text, e) =
    (plain, (h, text), ap (λ t. c ∷ t) e)
split_step-IsSplit c rest (none, behind) h (plain, e) = elim (ℕ_discrete c slash) [
  | yes s ↦ ground arith
  | no s ↦ ground arith
]

split_last-IsSplit : (s : Bytes) → IsText s → IsSplit s (split_last s)
unfolding split_last
split_last-IsSplit [] h = unfold IsSplit in (tt, refl)
split_last-IsSplit (c ∷ rest) (h, hs) =
    split_step-IsSplit c rest (split_last rest) h (split_last-IsSplit rest hs)

comp_rejected-IsSegment : (s : Bytes) → All IsNameByte s → comp_rejected s ≡ false → IsSegment s
unfolding comp_rejected
comp_rejected-IsSegment s h e = record {
  nonempty = λ p. ground (arith, str_eq_iff s []);
  plain = h;
  not_dot = λ p. ground (arith, str_eq_iff s (codes "."));
  not_dots = λ p. ground (arith, str_eq_iff s (codes ".."));
}

-- What a successful `strip_last` says of the path, the shorter path and the component.
pub record IsStripped (work work' comp : Bytes) : Type 0 where
  pub segment : IsSegment comp
  pub text : IsText work'
  pub shorter : length work' < length work

shortened_parts :
    (work : Bytes) (p : Option Bytes × Bytes)
    → IsSplit work p
    → comp_rejected p.1 ≡ false
    → work ≢ []
    → IsStripped work (shortened p.0) p.1
unfolding IsSplit shortened
shortened_parts work (none, behind) (plain, e) ok_comp ne = record {
  segment = comp_rejected-IsSegment behind plain ok_comp;
  text = tt;
  shorter = ground arith;
}
shortened_parts work (some [], behind) (plain, text, e) ok_comp ne =
    let segment = comp_rejected-IsSegment behind plain ok_comp in
    record {
      segment = segment;
      text = ((λ z. cc), tt);
      shorter = rw e (omega (arith, length_pos behind segment.nonempty));
    }
shortened_parts work (some (c ∷ front), behind) (plain, text, e) ok_comp ne = record {
  segment = comp_rejected-IsSegment behind plain ok_comp;
  text = text;
  shorter = rw e (omega (arith, length-append (c ∷ front) (slash ∷ behind)));
}

pub strip_last-IsStripped :
    (work : Bytes) {work' comp : Bytes}
    → IsText work
    → strip_last work ≡ ok (work', comp)
    → IsStripped work work' comp
unfolding strip_last
strip_last-IsStripped work {work'} {comp} h e =
    let (accepted, nonempty, front, behind) : (comp_rejected (split_last work).1 ≡ false)
        × (str_eq work [] ≡ false)
        × (shortened (split_last work).0 ≡ work')
        × ((split_last work).1 ≡ comp) =
      ground arith in
    rw (front, behind) at
      (shortened_parts work (split_last work) (split_last-IsSplit work h) accepted
        (λ p. bool_clash (sym ((str_eq_iff work []).1 p) ∙ nonempty)))
