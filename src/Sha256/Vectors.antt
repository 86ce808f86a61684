-- ===== src/Sha256/Vectors.antt =====
-- A test vector of FIPS 180-4, the text "abc".
use asterism_astools.Prelude.{◌≡◌, refl}
use asterism_astools.Prelude.{[], ◌∷◌}
use asterism_astools.Prelude.{codes}
use asterism_astools.Sha256.{
  sha256, sha256_update, sha256_final, absorb, absorb_round, flush, pad_zeros, big_endian, digest,
}
use asterism_astools.Sha256.Transform.{transform}

abc_digest :
    sha256 (codes "abc")
    ≡ 0xba ∷ 0x78 ∷ 0x16 ∷ 0xbf ∷ 0x8f ∷ 0x01 ∷ 0xcf ∷ 0xea ∷ 0x41 ∷ 0x41 ∷ 0x40 ∷ 0xde ∷ 0x5d
      ∷ 0xae ∷ 0x22 ∷ 0x23 ∷ 0xb0 ∷ 0x03 ∷ 0x61 ∷ 0xa3 ∷ 0x96 ∷ 0x17 ∷ 0x7a ∷ 0x9c ∷ 0xb4 ∷ 0x10
      ∷ 0xff ∷ 0x61 ∷ 0xf2 ∷ 0x00 ∷ 0x15 ∷ 0xad ∷ []
unfolding sha256 sha256_update sha256_final absorb absorb_round flush pad_zeros big_endian digest
    transform
abc_digest = refl
