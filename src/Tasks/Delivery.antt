-- ===== src/Tasks/Delivery.antt =====
-- What the waits of src/execution_queue.c hand out.
use asterism_astools.Prelude.{ℕ, ◌+◌, ◌≤◌, ◌≡◌, refl, ◌∙◌}
use asterism_astools.Prelude.{Bool, true, false, ◌||◌, Option, none, some, List, [], ◌∷◌, arith}
use asterism_astools.Prelude.{if◌then◌else◌}
use asterism_astools.Prelude.{Err}
use asterism_astools.Tasks.{
  TaskResult, Task, Event, finish, cancel, wait, Reply, answer, new_task, wait_reply, after_wait,
  finished, step, run, reply, replies,
}
use asterism_astools.Slots.{Limits, round, failed}

abbrev pub is_present {ℓ} : {A : Type ℓ} → Option A → Bool
is_present none = false
is_present (some _) = true

-- Whether a result has strings to free.
abbrev pub has_strings : TaskResult → Bool
has_strings r = is_present r.result_xcdn || is_present r.error_code || is_present r.error_message

abbrev pub delivers : Option Reply → Bool
delivers (some (answer v (some r))) = has_strings r
delivers _ = false

unfoldable pub deliveries : List (Option Reply) → ℕ
deliveries [] = 0
deliveries (r ∷ rs) = (if delivers r then 1 else 0) + deliveries rs

-- How many times the strings of a task can still be handed out.
abbrev left : Task → ℕ
left t = if t.done then (if has_strings t.result then 1 else 0) else 1

step-left :
    (t : Task) (e : Event) → (if delivers (reply t e) then 1 else 0) + left (step t e) ≤ left t
unfolding step reply wait_reply after_wait finished
step-left t (finish v r) = ground arith
step-left t cancel = ground arith
step-left t (wait true in_time) = ground arith
step-left t (wait false in_time) = ground arith

deliveries-left : (t : Task) (es : List Event) → deliveries (replies t es) ≤ left t
unfolding deliveries replies
deliveries-left t [] = omega arith
deliveries-left t (e ∷ es) = omega (arith, step-left t e, deliveries-left (step t e) es)

-- The strings of a result are handed out once at most, in whatever order the task ends, is cancelled and
-- is waited for.
pub deliveries_once : (es : List Event) → deliveries (replies new_task es) ≤ 1
deliveries_once es = deliveries-left new_task es

-- A task that is done stays done, with its verdict.
step-done :
    (t : Task) (e : Event)
    → t.done ≡ true
    → ((step t e).done ≡ true) × ((step t e).verdict ≡ t.verdict)
unfolding step after_wait finished
step-done t (finish v r) h = (ground arith, ground arith)
step-done t cancel h = (h, refl)
step-done t (wait true in_time) h = (ground arith, ground arith)
step-done t (wait false in_time) h = (ground arith, ground arith)

run-done :
    (t : Task) (es : List Event)
    → t.done ≡ true
    → ((run t es).done ≡ true) × ((run t es).verdict ≡ t.verdict)
unfolding run
run-done t [] h = (h, refl)
run-done t (e ∷ es) h =
    let (done, same) = step-done t e h in
    let (done_after, same_after) = run-done (step t e) es done in (done_after, same_after ∙ same)

-- Once the thread of a task has come to its end, every round of a wait answers, with the verdict of the
-- thread, whatever happened in between, and however little time the wait has.
pub wait_reply-finish :
    (t : Task) (v : Option Err) (r : TaskResult) (es : List Event) (out in_time : Bool)
    → t.done ≡ false
    → (let t1 = run (step t (finish v r)) es in
        wait_reply t1 out in_time ≡ answer v (if out then some t1.result else none))
unfolding wait_reply step finished
wait_reply-finish t v r es out in_time h =
    let now_done : (step t (finish v r)).done ≡ true = ground arith in
    let its_verdict : (step t (finish v r)).verdict ≡ v = ground arith in
    let (done, same) = run-done (step t (finish v r)) es now_done in ground (arith, done, same)

step-cancelled : (t : Task) (e : Event) → t.cancelled ≡ true → (step t e).cancelled ≡ true
unfolding step after_wait finished
step-cancelled t (finish v r) h = ground arith
step-cancelled t cancel h = refl
step-cancelled t (wait out in_time) h = ground arith

run-cancelled : (t : Task) (es : List Event) → t.cancelled ≡ true → (run t es).cancelled ≡ true
unfolding run
run-cancelled t [] h = h
run-cancelled t (e ∷ es) h = run-cancelled (step t e) es (step-cancelled t e h)

-- A task that has been cancelled gets no slot any more: whatever happens to it later, each round of its
-- slot admission ends with the error of a cancelled task.
pub round-cancel :
    (t : Task) (es : List Event) (l : Limits) (deadline now used : ℕ)
    → round l deadline (run (step t cancel) es).cancelled now used ≡ failed Err.cancelled
unfolding round step
round-cancel t es l deadline now used = rw (run-cancelled (step t cancel) es refl) refl
