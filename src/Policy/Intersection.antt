-- ===== src/Policy/Intersection.antt =====
-- What the loops over the pairs of a request and a grant build up.
use asterism_astools.Prelude.{ℕ, ◌<◌, ◌≡◌, refl, sym, ◌∙◌, inl, inr}
use asterism_astools.Prelude.{Bool, true, false, ◌&&◌, ◌||◌, List, [], ◌∷◌, ◌++◌, arith}
use asterism_astools.Prelude.{Bool-cases}
use asterism_astools.Prelude.{All}
use asterism_astools.Prelude.{Bytes, str_eq_iff}
use Prim.Native.Nat.{bit_and}
use asterism_astools.Path.{path_under}
use asterism_astools.Path.Segments.{IsCanonical}
use asterism_astools.Path.Under.{path_under_trans, path_under_comparable}
use asterism_astools.Policy.{Entry, has_entry, add_entry, add_pair, add_pairs, intersect}
use asterism_astools.Policy.Access.{allows, hit, covered, IsAccess, allows-bit_and, allows_zero}

-- An entry that `perm_push` may hold: a canonical path and its access bits.
abbrev pub IsGood : Entry → Type 0
IsGood e = IsCanonical e.path × IsAccess e.access

or_assoc : (a b c : Bool) → ((a || b) || c) ≡ (a || (b || c))
or_assoc true b c = refl
or_assoc false b c = refl

covered-append :
    (xs ys : List Entry) (p : Bytes) (need : ℕ)
    → covered (xs ++ ys) p need ≡ (covered xs p need || covered ys p need)
unfolding covered
covered-append [] ys p need = refl
covered-append (x ∷ xs) ys p need =
    rw (covered-append xs ys p need)
      (sym (or_assoc (hit x p need) (covered xs p need) (covered ys p need)))

module _ (p : Bytes) (need : ℕ) (hp : IsCanonical p) (hn : IsAccess need) (pos : 0 < need) where
  abbrev hit_at : Bytes → ℕ → Bool
  hit_at path access = allows access need && path_under p path

  has_entry-covered :
      (xs : List Entry) (path : Bytes) (access : ℕ)
      → has_entry xs path access ≡ true
      → hit_at path access ≡ true
      → covered xs p need ≡ true
  unfolding has_entry covered hit
  has_entry-covered [] path access h k = cc
  has_entry-covered (x ∷ xs) path access h k =
      ground (arith, str_eq_iff x.path path, has_entry-covered xs path access)

  covered-add_entry :
      (xs : List Entry) (path : Bytes) (access : ℕ)
      → covered (add_entry xs path access) p need ≡ (covered xs p need || hit_at path access)
  unfolding add_entry
  covered-add_entry xs path access = elim (Bool-cases (has_entry xs path access)) [
    | inl h ↦ ground (arith, has_entry-covered xs path access h)
    | inr h ↦ rw h (
        covered-append xs (record { path = path; access = access } ∷ []) p need
        ∙ unfold covered hit in ground arith)
  ]

  covered-add_pair :
      (xs : List Entry) (r g : Entry)
      → IsGood r
      → IsGood g
      → covered (add_pair xs r g) p need ≡ (covered xs p need || (hit r p need && hit g p need))
  unfolding add_pair hit
  covered-add_pair xs r g (cr, ar) (cg, ag) = ground (
    arith,
    allows-bit_and r.access g.access need ar ag hn,
    allows_zero need hn pos,
    covered-add_entry xs r.path (bit_and r.access g.access),
    covered-add_entry xs g.path (bit_and r.access g.access),
    path_under_trans p r.path g.path hp cr cg,
    path_under_trans p g.path r.path hp cg cr,
    path_under_comparable p r.path g.path hp cr cg,
  )

  covered-add_pairs :
      (xs : List Entry) (r : Entry) (gs : List Entry)
      → IsGood r
      → All IsGood gs
      → covered (add_pairs xs r gs) p need
        ≡ (covered xs p need || (hit r p need && covered gs p need))
  unfolding add_pairs
  covered-add_pairs xs r [] hr hg = unfold covered in ground arith
  covered-add_pairs xs r (g ∷ gs) hr (hg, hgs) =
      covered-add_pairs (add_pair xs r g) r gs hr hgs
      ∙ rw (covered-add_pair xs r g hr hg) (
          unfold covered in
          share (covered xs p need) (hit r p need) (hit g p need) (covered gs p need))
    where
      share : (a b c d : Bool) → ((a || (b && c)) || (b && d)) ≡ (a || (b && (c || d)))
      share a b c d = ground arith

  pub covered-intersect :
      (xs rs gs : List Entry)
      → All IsGood rs
      → All IsGood gs
      → covered (intersect xs rs gs) p need
        ≡ (covered xs p need || (covered rs p need && covered gs p need))
  unfolding intersect
  covered-intersect xs [] gs hr hg = unfold covered in ground arith
  covered-intersect xs (r ∷ rs) gs (hr, hrs) hg =
      covered-intersect (add_pairs xs r gs) rs gs hrs hg
      ∙ rw (covered-add_pairs xs r gs hr hg) (
          unfold covered in
          share (covered xs p need) (hit r p need) (covered gs p need) (covered rs p need))
    where
      share : (a b c d : Bool) → ((a || (b && c)) || (d && c)) ≡ (a || ((b || d) && c))
      share a b c d = ground arith
