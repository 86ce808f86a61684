-- ===== src/Slots.antt =====
-- The slot admission of src/execution_queue.c: at most `max_concurrent` invocations run at a time.
-- Each step of the model is what one thread does while it holds `slot_mu`; the steps of the threads
-- come in any order. A wait on the condition ends at any time, and whether the task was cancelled
-- and what the clock says is part of the step.
pub mod Invariant
use asterism_astools.Prelude.{
  ℕ, zero, suc, ◌+◌, ◌-◌, ◌*◌, ◌/◌, ◌%◌, ◌^◌, ◌≤◌, ◌<◌, ◌≡◌, refl, sym, ap, ◌∙◌, ◌≢◌, ◌↔◌, ◌⊎◌, inl,
  inr,
}
use asterism_astools.Prelude.{
  Bool, true, false, not, ◌&&◌, ◌||◌, Option, none, some, List, [], ◌∷◌, ◌++◌, map, arith,
}
use asterism_astools.Prelude.{
  ltb, leb, ◌==◌, if◌then◌else◌, ltb→lt, lt→ltb, leb→le, ==_iff, tests, Bool-cases, some_inj,
  bool_clash, Option-cases, agree_below, agree_below→eq,
}
use asterism_astools.Prelude.{
  length, get_elem?, get_or, take, drop, replicate, length-append, take-append-drop,
  drop-append_length, All-drop, All-append, zero_or_suc, list_cases, length_pos, length-take,
  length-drop, All,
}
use asterism_astools.Prelude.{
  Bytes, AreBytes, str_eq, str_eq_iff, str_eq_refl, codes, peek, advance, within, is_digit, Result,
  ok, err, Err, Result-cases, bind-eq-ok, ◌>>=◌,
}
use asterism_astools.Prelude.{set}

-- Where a thread is: in front of the loop, in the loop after a wait, with a slot, or behind it.
pub data Phase : Type 0 where
  fresh waits holds released : Phase
  failed : Err → Phase

-- The fields of the context, and the threads.
pub record Queue : Type 0 where
  pub slots_used : ℕ
  pub slots_waiting : ℕ
  pub threads : List Phase

-- What does not change: `max_concurrent`, where a value that is not positive is 0, and `no_threads`.
pub record Limits : Type 0 where
  pub max_concurrent : ℕ
  pub no_threads : Bool

abbrev pub max_slots : Limits → ℕ
max_slots l = if ltb 0 l.max_concurrent then l.max_concurrent else 1

-- What a round of the loop of `astools_slot_acquire` comes to, for a thread with this deadline.
unfoldable pub round : Limits → ℕ → Bool → ℕ → ℕ → Phase
round l deadline cancelled now used =
    if cancelled
    then failed Err.cancelled
    else if ltb 0 deadline && leb deadline now
    then failed Err.timeout
    else if ltb used (max_slots l)
    then holds
    else if l.no_threads
    then failed Err.busy
    else waits

-- The two counters after the round; `waiting` is the flag of the thread.
unfoldable pub used_after : Phase → ℕ → ℕ
used_after holds used = used + 1
used_after _ used = used

unfoldable pub waiting_after : Phase → Bool → ℕ → ℕ
waiting_after waits waiting n = if waiting then n else n + 1
waiting_after _ waiting n = if waiting then n - 1 else n

-- A round of the thread at a position, or its `astools_slot_release`.
pub data Event : Type 0 where
  attempt : (thread deadline : ℕ) (cancelled : Bool) (now : ℕ) → Event
  release : (thread : ℕ) → Event

unfoldable pub attempted : Queue → ℕ → Bool → Phase → Queue
attempted q i waiting p = record {
  slots_used = used_after p q.slots_used;
  slots_waiting = waiting_after p waiting q.slots_waiting;
  threads = set q.threads i p;
}

-- A round is made by a thread in front of the loop or in it only.
unfoldable pub attempt_at : Limits → Queue → ℕ → ℕ → Bool → ℕ → Option Phase → Queue
attempt_at l q i deadline cancelled now (some fresh) =
    attempted q i false (round l deadline cancelled now q.slots_used)
attempt_at l q i deadline cancelled now (some waits) =
    attempted q i true (round l deadline cancelled now q.slots_used)
attempt_at l q i deadline cancelled now _ = q

-- `astools_slot_release`, of a thread with a slot only.
unfoldable pub release_at : Queue → ℕ → Option Phase → Queue
release_at q i (some holds) = record {
  slots_used = if ltb 0 q.slots_used then q.slots_used - 1 else q.slots_used;
  slots_waiting = q.slots_waiting;
  threads = set q.threads i released;
}
release_at q i _ = q

unfoldable pub step : Limits → Queue → Event → Queue
step l q (attempt i deadline cancelled now) =
    attempt_at l q i deadline cancelled now (get_elem? q.threads i)
step l q (release i) = release_at q i (get_elem? q.threads i)

unfoldable pub run : Limits → Queue → List Event → Queue
run l q [] = q
run l q (e ∷ es) = run l (step l q e) es

-- `n` threads in front of the loop.
abbrev pub start : ℕ → Queue
start n = record { slots_used = 0; slots_waiting = 0; threads = replicate n fresh }
