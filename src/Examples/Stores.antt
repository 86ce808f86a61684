-- ===== src/Examples/Stores.antt =====
-- The slots and a buffer on concrete inputs.
use asterism_astools.Prelude.{◌≡◌, refl}
use asterism_astools.Prelude.{false, [], ◌∷◌}
use asterism_astools.Prelude.{codes, ok}
use asterism_astools.Slots.{Limits, attempt, release, run, start}
use asterism_astools.Slots.Invariant.{IsConsistent, slots-IsConsistent}
use asterism_astools.Buffer.{Buf, buf_init, grow, buf_reserve, buf_append, append_all}
use asterism_astools.Buffer.Growth.{IsBuffer, append_all-joined}

abbrev one_slot : Limits
one_slot = record { max_concurrent = 1; no_threads = false }

-- The second thread waits until the first one releases the slot.
slots-IsConsistent_example : IsConsistent one_slot (
    run one_slot
      (start 2)
      (attempt 0 0 false 5 ∷ attempt 1 0 false 6 ∷ release 0 ∷ attempt 1 0 false 7 ∷ []))
slots-IsConsistent_example =
    slots-IsConsistent one_slot 2
      (attempt 0 0 false 5 ∷ attempt 1 0 false 6 ∷ release 0 ∷ attempt 1 0 false 7 ∷ [])

abbrev filled : Buf
filled = record { data_bytes = codes "abc"; cap = 64 }

appends : append_all buf_init (codes "ab" ∷ codes "c" ∷ []) ≡ ok filled
unfolding append_all buf_append buf_reserve grow
appends = refl

append_all-joined_example : IsBuffer filled × (codes "abc" ≡ codes "abc")
append_all-joined_example = append_all-joined (codes "ab" ∷ codes "c" ∷ []) filled appends
