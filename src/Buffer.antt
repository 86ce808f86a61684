-- ===== src/Buffer.antt =====
-- `astools_buf` of src/util.c: the growable buffer. A `size_t` has 64 bits, and `realloc` succeeds.
pub mod Growth
use asterism_astools.Prelude.{
  ℕ, zero, suc, ◌+◌, ◌-◌, ◌*◌, ◌/◌, ◌%◌, ◌^◌, ◌≤◌, ◌<◌, ◌≡◌, refl, sym, ap, ◌∙◌, ◌≢◌, ◌↔◌, ◌⊎◌, inl,
  inr,
}
use asterism_astools.Prelude.{
  Bool, true, false, not, ◌&&◌, ◌||◌, Option, none, some, List, [], ◌∷◌, ◌++◌, map, arith,
}
use asterism_astools.Prelude.{
  ltb, leb, ◌==◌, if◌then◌else◌, ltb→lt, lt→ltb, leb→le, ==_iff, tests, Bool-cases, some_inj,
  bool_clash, Option-cases, agree_below, agree_below→eq,
}
use asterism_astools.Prelude.{
  length, get_elem?, get_or, take, drop, replicate, length-append, take-append-drop,
  drop-append_length, All-drop, All-append, zero_or_suc, list_cases, length_pos, length-take,
  length-drop, All,
}
use asterism_astools.Prelude.{
  Bytes, AreBytes, str_eq, str_eq_iff, str_eq_refl, codes, peek, advance, within, is_digit, Result,
  ok, err, Err, Result-cases, bind-eq-ok, ◌>>=◌,
}

abbrev pub size_max : ℕ
size_max = 2 ^ 64 - 1

-- `data` up to `len`, and the capacity. There is a NUL behind the data, so a buffer with a capacity
-- has room for one more byte.
pub record Buf : Type 0 where
  pub data_bytes : Bytes
  pub cap : ℕ

-- `astools_buf_init`
abbrev pub buf_init : Buf
buf_init = record { data_bytes = []; cap = 0 }

-- The loop that doubles the capacity.
unfoldable pub grow : ℕ → ℕ → ℕ → ℕ
grow zero cap need = cap
grow (suc fuel) cap need =
    let more = grow fuel (cap * 2) need in
    if not (ltb cap need) then cap else if ltb (size_max / 2) cap then need else more

-- `buf_reserve`. The loop has 64 rounds: each doubles a capacity that is not 0.
unfoldable pub buf_reserve : Buf → ℕ → Result Buf
buf_reserve b extra =
    let need = length b.data_bytes + extra + 1 in
    if ltb (size_max - length b.data_bytes - 1) extra
    then err Err.nomem
    else if leb need b.cap
    then ok b
    else ok (record b { cap = grow 64 (if b.cap == 0 then 64 else b.cap) need })

-- `astools_buf_append`, of data that is not null
unfoldable pub buf_append : Buf → Bytes → Result Buf
buf_append b s = do
  b' ← buf_reserve b (length s)
  ok (record b' { data_bytes = b'.data_bytes ++ s })

-- `astools_buf_detach`: the bytes, and the buffer that is left.
unfoldable pub buf_detach : Buf → Bytes × Buf
buf_detach b = (b.data_bytes, buf_init)

-- Several appends in a row, up to the first that fails.
unfoldable pub append_all : Buf → List Bytes → Result Buf
append_all b [] = ok b
append_all b (s ∷ ss) = do b' ← buf_append b s; append_all b' ss
