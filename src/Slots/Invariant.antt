-- ===== src/Slots/Invariant.antt =====
-- The counters of the slot admission against the threads.
use asterism_astools.Prelude.{ℕ, zero, suc, ◌+◌, ◌≤◌, ◌≡◌, refl, sym}
use asterism_astools.Prelude.{Bool, true, false, Option, none, some, List, [], ◌∷◌, arith}
use asterism_astools.Prelude.{get_elem?, replicate}
use asterism_astools.Prelude.{set}
use asterism_astools.Slots.{
  Phase, fresh, waits, holds, released, failed, Queue, Limits, max_slots, round, used_after,
  waiting_after, Event, attempt, release, attempted, attempt_at, release_at, step, run, start,
}

abbrev pub one_if : Bool → ℕ
one_if true = 1
one_if false = 0

unfoldable pub is_holding : Phase → Bool
is_holding holds = true
is_holding _ = false

unfoldable pub is_waiting : Phase → Bool
is_waiting waits = true
is_waiting _ = false

unfoldable pub count : (Phase → Bool) → List Phase → ℕ
count test [] = 0
count test (p ∷ ps) = one_if (test p) + count test ps

count-set :
    (test : Phase → Bool) (ps : List Phase) (i : ℕ) (p p' : Phase)
    → get_elem? ps i ≡ some p
    → count test (set ps i p') + one_if (test p) ≡ count test ps + one_if (test p')
unfolding count
count-set test [] i p p' h = cc
count-set test (x ∷ ps) zero p p' h = let same : x ≡ p = cc in rw same (omega arith)
count-set test (x ∷ ps) (suc i) p p' h = omega (arith, count-set test ps i p p' h)

count-replicate :
    (test : Phase → Bool) (n : ℕ) → test fresh ≡ false → count test (replicate n fresh) ≡ 0
unfolding count
count-replicate test zero h = refl
count-replicate test (suc n) h = rw h (omega (arith, count-replicate test n h))

-- As many slots are used as threads hold one, within the limit, and as many are counted as waiting
-- as wait.
pub record IsConsistent (l : Limits) (q : Queue) : Type 0 where
  pub used_is : q.slots_used ≡ count is_holding q.threads
  pub waiting_is : q.slots_waiting ≡ count is_waiting q.threads
  pub within_limit : q.slots_used ≤ max_slots l

used_after_is : (p : Phase) (n : ℕ) → used_after p n ≡ n + one_if (is_holding p)
unfolding used_after is_holding
used_after_is fresh n = omega arith
used_after_is waits n = omega arith
used_after_is holds n = omega arith
used_after_is released n = omega arith
used_after_is (failed e) n = omega arith

waiting_after_is :
    (p : Phase) (b : Bool) (n : ℕ)
    → one_if b ≤ n
    → waiting_after p b n + one_if b ≡ n + one_if (is_waiting p)
unfolding waiting_after is_waiting
waiting_after_is waits true n h = omega arith
waiting_after_is waits false n h = omega arith
waiting_after_is fresh true n h = omega arith
waiting_after_is fresh false n h = omega arith
waiting_after_is holds true n h = omega arith
waiting_after_is holds false n h = omega arith
waiting_after_is released true n h = omega arith
waiting_after_is released false n h = omega arith
waiting_after_is (failed e) true n h = omega arith
waiting_after_is (failed e) false n h = omega arith

round_limit :
    (l : Limits) (deadline : ℕ) (cancelled : Bool) (now used : ℕ)
    → used ≤ max_slots l
    → used + one_if (is_holding (round l deadline cancelled now used)) ≤ max_slots l
unfolding round is_holding
round_limit l deadline cancelled now used h = ground arith

attempted-IsConsistent :
    (l : Limits) (q : Queue) (i : ℕ) (old p : Phase)
    → get_elem? q.threads i ≡ some old
    → is_holding old ≡ false
    → q.slots_used + one_if (is_holding p) ≤ max_slots l
    → IsConsistent l q
    → IsConsistent l (attempted q i (is_waiting old) p)
unfolding attempted
attempted-IsConsistent l q i old p h idle room c =
    let held : count is_holding (set q.threads i p) + one_if (is_holding old)
        ≡ count is_holding q.threads + one_if (is_holding p) =
      count-set is_holding q.threads i old p h in
    let queued = count-set is_waiting q.threads i old p h in
    let counted = count-set is_waiting q.threads i old released h in
    let none_held : one_if (is_holding old) ≡ 0 = rw idle refl in
    let least : one_if (is_waiting old) ≤ q.slots_waiting =
      unfold is_waiting in omega (arith, counted, c.waiting_is) in
    record {
      used_is = omega (arith, used_after_is p q.slots_used, c.used_is);
      waiting_is =
          omega (arith, waiting_after_is p (is_waiting old) q.slots_waiting least, c.waiting_is);
      within_limit = omega (arith, used_after_is p q.slots_used);
    }

attempt_at-IsConsistent :
    (l : Limits) (q : Queue) (i deadline : ℕ) (cancelled : Bool) (now : ℕ) (o : Option Phase)
    → get_elem? q.threads i ≡ o
    → IsConsistent l q
    → IsConsistent l (attempt_at l q i deadline cancelled now o)
unfolding attempt_at is_holding is_waiting
attempt_at-IsConsistent l q i deadline cancelled now (some fresh) h c =
    attempted-IsConsistent l q i fresh (round l deadline cancelled now q.slots_used) h refl
      (round_limit l deadline cancelled now q.slots_used c.within_limit) c
attempt_at-IsConsistent l q i deadline cancelled now (some waits) h c =
    attempted-IsConsistent l q i waits (round l deadline cancelled now q.slots_used) h refl
      (round_limit l deadline cancelled now q.slots_used c.within_limit) c
attempt_at-IsConsistent l q i deadline cancelled now none h c = c
attempt_at-IsConsistent l q i deadline cancelled now (some holds) h c = c
attempt_at-IsConsistent l q i deadline cancelled now (some released) h c = c
attempt_at-IsConsistent l q i deadline cancelled now (some (failed e)) h c = c

release_at-IsConsistent :
    (l : Limits) (q : Queue) (i : ℕ) (o : Option Phase)
    → get_elem? q.threads i ≡ o
    → IsConsistent l q
    → IsConsistent l (release_at q i o)
unfolding release_at is_holding is_waiting
release_at-IsConsistent l q i (some holds) h c =
    let held : count is_holding (set q.threads i released) + 1 ≡ count is_holding q.threads + 0 =
      count-set is_holding q.threads i holds released h in
    let queued : count is_waiting (set q.threads i released) + 0 ≡ count is_waiting q.threads + 0 =
      count-set is_waiting q.threads i holds released h in
    record {
      used_is = ground (arith, held, c.used_is);
      waiting_is = omega (arith, queued, c.waiting_is);
      within_limit = ground (arith, c.within_limit);
    }
release_at-IsConsistent l q i none h c = c
release_at-IsConsistent l q i (some fresh) h c = c
release_at-IsConsistent l q i (some waits) h c = c
release_at-IsConsistent l q i (some released) h c = c
release_at-IsConsistent l q i (some (failed e)) h c = c

step-IsConsistent :
    (l : Limits) (q : Queue) (e : Event) → IsConsistent l q → IsConsistent l (step l q e)
unfolding step
step-IsConsistent l q (attempt i deadline cancelled now) c =
    attempt_at-IsConsistent l q i deadline cancelled now (get_elem? q.threads i) refl c
step-IsConsistent l q (release i) c = release_at-IsConsistent l q i (get_elem? q.threads i) refl c

run-IsConsistent :
    (l : Limits) (q : Queue) (es : List Event) → IsConsistent l q → IsConsistent l (run l q es)
unfolding run
run-IsConsistent l q [] c = c
run-IsConsistent l q (e ∷ es) c = run-IsConsistent l (step l q e) es (step-IsConsistent l q e c)

-- From `n` threads in front of the loop, in whatever order they make their rounds and release their
-- slots, the used slots are those of the threads that hold one and are within the limit, and
-- the waiting count is that of the threads that wait.
pub slots-IsConsistent :
    (l : Limits) (n : ℕ) (es : List Event) → IsConsistent l (run l (start n) es)
slots-IsConsistent l n es = run-IsConsistent l (start n) es (record {
  used_is = sym (count-replicate is_holding n (unfold is_holding in refl));
  waiting_is = sym (count-replicate is_waiting n (unfold is_waiting in refl));
  within_limit = omega arith;
})
