-- ===== src/Path/Segments.antt =====
-- A canonical path as the list of its components.
use asterism_astools.Prelude.{ℕ, ◌≡◌, refl, ◌≢◌}
use asterism_astools.Prelude.{List, [], ◌∷◌, ◌++◌}
use asterism_astools.Prelude.{All}
use asterism_astools.Prelude.{Bytes, codes}
use asterism_astools.Path.{slash}
use mathlib.Core.List.{append_assoc}

-- A byte of a component.
abbrev pub IsNameByte : ℕ → Type 0
IsNameByte c = (c ≢ 0) × (c ≢ slash)

pub record IsSegment (s : Bytes) : Type 0 where
  pub nonempty : s ≢ []
  pub plain : All IsNameByte s
  pub not_dot : s ≢ codes "."
  pub not_dots : s ≢ codes ".."

-- Every component with a slash in front.
unfoldable pub flat : List Bytes → Bytes
flat [] = []
flat (s ∷ ss) = slash ∷ (s ++ flat ss)

unfoldable pub render : List Bytes → Bytes
render [] = slash ∷ []
render (s ∷ ss) = flat (s ∷ ss)

-- An absolute path with no empty, "." or ".." component and no slash at its end.
abbrev pub IsCanonical : Bytes → Type 0
IsCanonical p = (segments : List Bytes) × All IsSegment segments × (render segments ≡ p)

pub flat-append : (ss ts : List Bytes) → flat (ss ++ ts) ≡ flat ss ++ flat ts
unfolding flat
flat-append [] ts = refl
flat-append (s ∷ ss) ts = rw (flat-append ss ts) (rw append_assoc)
