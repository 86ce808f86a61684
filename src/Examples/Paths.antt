-- ===== src/Examples/Paths.antt =====
-- Paths on a small file system.
use asterism_astools.Prelude.{◌≡◌, refl, ◌↔◌}
use asterism_astools.Prelude.{true, List, [], ◌∷◌}
use asterism_astools.Prelude.{Bytes, str_eq, codes, ok}
use asterism_astools.Examples.{is_text-IsText, disk, is_name-IsSegment, disk-IsCanonical}
use asterism_astools.Path.{
  path_squeeze, squeeze_loop, drop_trailing, path_is_abs, path_join, comp_rejected, split_step,
  split_last, shortened, strip_last, append_comp, append_tail, os_realpath, climb, walk_up,
  canonical_missing, canonical_squeezed, path_canonical, path_under,
}
use asterism_astools.Path.Segments.{IsCanonical, flat, render}
use asterism_astools.Path.Under.{path_under_iff}
use asterism_astools.Path.Canonical.{path_canonical-IsCanonical}

-- A relative path to a file that is missing.
finds_missing : path_canonical disk (codes "/w") (codes "a//b/") true ≡ ok (codes "/w/a/b")
unfolding path_canonical canonical_squeezed canonical_missing walk_up climb os_realpath append_tail
    append_comp strip_last shortened split_last split_step comp_rejected path_join path_is_abs
    path_squeeze squeeze_loop drop_trailing str_eq
finds_missing = refl

path_canonical-IsCanonical_example : IsCanonical (codes "/w/a/b")
path_canonical-IsCanonical_example =
    path_canonical-IsCanonical disk (codes "/w") (codes "a//b/") true (codes "/w/a/b")
      disk-IsCanonical (is_text-IsText (codes "/w") refl) (is_text-IsText (codes "a//b/") refl)
      finds_missing

path_under_iff_example :
    (path_under (codes "/ab") (codes "/a") ≡ true)
    ↔ ((rest : List Bytes) × (codes "ab" ∷ [] ≡ codes "a" ∷ rest))
unfolding render flat str_eq
path_under_iff_example =
    path_under_iff (codes "ab" ∷ []) (codes "a" ∷ []) (is_name-IsSegment (codes "ab") refl refl, tt)
      (is_name-IsSegment (codes "a") refl refl, tt)
