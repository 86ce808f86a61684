-- ===== src/Examples/Exchange.antt =====
-- Frames and tasks on concrete inputs.
use asterism_astools.Int.{pos}
use asterism_astools.Prelude.{
  ◌≡◌, refl, ◌≤◌, ◌++◌, true, false, some, none, [], ◌∷◌, arith, codes, take, ok, err, Err, Bytes,
  List, if◌then◌else◌,
}
use asterism_astools.Frame.{take_frame, write_frame}
use asterism_astools.Frame.Written.{take_frame-write_frame, take_frame-take}
use asterism_astools.Slots.{Limits, round, failed}
use asterism_astools.Tasks.{
  Event, finish, cancel, wait, TaskResult, new_task, step, run, replies, wait_reply, answer,
}
use asterism_astools.Tasks.Delivery.{deliveries, deliveries_once, wait_reply-finish, round-cancel}
use asterism_astools.Json.Writer.{decimal_digits}

take_frame-write_frame_example :
    take_frame 100 (write_frame (codes "{}") ++ codes "Con") ≡ ok (codes "{}", codes "Con")
take_frame-write_frame_example =
    take_frame-write_frame 100 (codes "{}") (codes "Con") (omega arith) (omega arith) (omega arith)

-- One byte is still to come.
take_frame-take_example : take_frame 100 (take 22 (write_frame (codes "{}"))) ≡ err Err.busy
take_frame-take_example =
    take_frame-take 100 (codes "{}") 22 (omega arith) (omega arith) (omega arith)
      (unfold decimal_digits in omega arith)

abbrev frame : Bytes
frame = write_frame (codes "{}") ++ codes "Con"

abbrev good : TaskResult
good = record {
  is_ok = true;
  result_xcdn = some (codes "1");
  error_code = none;
  error_message = none;
  exit_code = pos 0;
  duration_ms = 5;
}

abbrev events : List Event
events = wait true true ∷ finish none good ∷ wait true true ∷ wait true false ∷ []

deliveries_once_example : deliveries (replies new_task events) ≤ 1
deliveries_once_example = deliveries_once events

wait_reply-finish_example :
    (let t1 = run (step new_task (finish none good)) (cancel ∷ wait true true ∷ []) in
      wait_reply t1 true false ≡ answer none (if true then some t1.result else none))
wait_reply-finish_example =
    wait_reply-finish new_task none good (cancel ∷ wait true true ∷ []) true false refl

abbrev limits : Limits
limits = record { max_concurrent = 2; no_threads = false }

round-cancel_example :
    round limits 0 (run (step new_task cancel) (wait false true ∷ [])).cancelled 7 0
    ≡ failed Err.cancelled
round-cancel_example = round-cancel new_task (wait false true ∷ []) limits 0 7 0
