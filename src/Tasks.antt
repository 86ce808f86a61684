-- ===== src/Tasks.antt =====
-- The asynchronous tasks of src/execution_queue.c. Each step is what one thread does while it holds the
-- mutex of the task, and the steps of the threads come in any order. The thread of the task runs once,
-- and a wait on the condition ends at any time.
pub mod Delivery
use asterism_astools.Int.{ℤ, pos}
use asterism_astools.Prelude.{
  ℕ, zero, suc, ◌+◌, ◌-◌, ◌*◌, ◌/◌, ◌%◌, ◌^◌, ◌≤◌, ◌<◌, ◌≡◌, refl, sym, ap, ◌∙◌, ◌≢◌, ◌↔◌, ◌⊎◌, inl,
  inr,
}
use asterism_astools.Prelude.{
  Bool, true, false, not, ◌&&◌, ◌||◌, Option, none, some, List, [], ◌∷◌, ◌++◌, map, arith,
}
use asterism_astools.Prelude.{
  ltb, leb, ◌==◌, if◌then◌else◌, ltb→lt, lt→ltb, leb→le, ==_iff, tests, Bool-cases, some_inj,
  bool_clash, Option-cases, agree_below, agree_below→eq,
}
use asterism_astools.Prelude.{
  length, get_elem?, get_or, take, drop, replicate, length-append, take-append-drop,
  drop-append_length, take-append_length, All-drop, All-append, zero_or_suc, list_cases, length_pos,
  length-take, length-drop, All,
}
use asterism_astools.Prelude.{
  bind_option, bind_option_inv, Bytes, AreBytes, str_eq, str_eq_iff, str_eq_refl, codes, peek,
  advance, within, is_digit, Result, ok, err, Err, Result-cases, bind-eq-ok, ◌>>=◌,
}

-- `astools_result`; a string that is not there is none.
pub record TaskResult : Type 0 where
  pub is_ok : Bool
  pub result_xcdn : Option Bytes
  pub error_code : Option Bytes
  pub error_message : Option Bytes
  pub exit_code : ℤ
  pub duration_ms : ℕ

-- The fields that change; a verdict of none is `ASTOOLS_OK`.
pub record Task : Type 0 where
  pub done : Bool
  pub cancelled : Bool
  pub verdict : Option Err
  pub result : TaskResult

-- The end of `task_main`, `astools_task_cancel`, and a round of `astools_task_wait` that has an `out` or
-- not, before its end or not.
pub data Event : Type 0 where
  finish : (verdict : Option Err) (result : TaskResult) → Event
  cancel : Event
  wait : (out in_time : Bool) → Event

-- What a round of a wait comes to: it goes on, its time is over, or the verdict with what is put in `out`.
pub data Reply : Type 0 where
  waits : Reply
  busy : Reply
  answer : (verdict : Option Err) (out : Option TaskResult) → Reply

abbrev pub without_strings : TaskResult → TaskResult
without_strings r = record {
  is_ok = r.is_ok;
  result_xcdn = none;
  error_code = none;
  error_message = none;
  exit_code = r.exit_code;
  duration_ms = r.duration_ms;
}

-- `calloc`
abbrev pub no_result : TaskResult
no_result = record {
  is_ok = false;
  result_xcdn = none;
  error_code = none;
  error_message = none;
  exit_code = pos 0;
  duration_ms = 0;
}

abbrev pub new_task : Task
new_task = record { done = false; cancelled = false; verdict = none; result = no_result }

-- `astools_task_wait`
unfoldable pub wait_reply : Task → Bool → Bool → Reply
wait_reply t out in_time =
    if t.done
    then answer t.verdict (if out then some t.result else none)
    else if in_time
    then waits
    else busy

unfoldable pub after_wait : Task → Bool → Task
after_wait t out =
    if t.done && out
    then record {
      done = true;
      cancelled = t.cancelled;
      verdict = t.verdict;
      result = without_strings t.result;
    }
    else t

unfoldable pub finished : Task → Option Err → TaskResult → Task
finished t v r =
    if t.done then t else record { done = true; cancelled = t.cancelled; verdict = v; result = r }

-- `astools_task_cancel`
abbrev pub cancelled_task : Task → Task
cancelled_task t = record {
  done = t.done;
  cancelled = true;
  verdict = t.verdict;
  result = t.result;
}

unfoldable pub step : Task → Event → Task
step t (finish v r) = finished t v r
step t cancel = cancelled_task t
step t (wait out in_time) = after_wait t out

unfoldable pub run : Task → List Event → Task
run t [] = t
run t (e ∷ es) = run (step t e) es

-- What a step hands out.
unfoldable pub reply : Task → Event → Option Reply
reply t (wait out in_time) = some (wait_reply t out in_time)
reply t _ = none

unfoldable pub replies : Task → List Event → List (Option Reply)
replies t [] = []
replies t (e ∷ es) = reply t e ∷ replies (step t e) es
