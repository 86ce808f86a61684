-- ===== src/Frame/Taken.antt =====
-- What src/process_frame.c takes off a buffer, whatever the buffer holds.
use asterism_astools.Prelude.{ℕ, ◌≤◌, ◌≡◌}
use asterism_astools.Prelude.{Option, none, some, ◌++◌}
use asterism_astools.Prelude.{length}
use asterism_astools.Prelude.{Bytes, Result}
use asterism_astools.Prelude.{OnOk}
use asterism_astools.Frame.{Fields}

-- A length that has been read is not 0 and at most the limit.
abbrev InLimit : ℕ → Option ℕ → Type 0
InLimit limit none = Unit {0}
InLimit limit (some n) = (1 ≤ n) × (n ≤ limit)

abbrev Limited : ℕ → Fields → Type 0
Limited limit f = InLimit limit f.content_length

module _ (limit : ℕ) where
  abbrev Fine : Result Fields → Type 0
  Fine = OnOk (Limited limit)

-- The payload and what is left are what stands behind the header, and the payload is within the limit.
abbrev IsTaken : ℕ → Bytes → Bytes × Bytes → Type 0
IsTaken limit s (json, rest) = (1 ≤ length json) × (length json ≤ limit) × (s ≡ json ++ rest)

abbrev IsSplit : ℕ → Bytes → Bytes × Bytes → Type 0
IsSplit limit b (json, rest) =
    (header : Bytes) × (1 ≤ length json) × (length json ≤ limit) × (b ≡ header ++ (json ++ rest))
