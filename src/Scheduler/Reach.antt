-- ===== src/Scheduler/Reach.antt =====
-- kernel/task/scheduler.c: the states that the kernel reaches by the timer and by calls of
-- sched_load, sched_process_fork, sched_exit and sched_schedule.
use yuzuos.Base.{
  ℕ, ◌+◌, ◌^◌, ◌<◌, ◌≡◌, refl, arith, Bool, true, false, not, some, ◌&&◌, ◌==◌, ltb, Bool-cases,
  inl, inr,
}
use mathlib.Core.Path.{subst}
use mathlib.Core.Option.{some-injective}
use yuzuos.Base.Int.{ℤ}
use yuzuos.DList
use yuzuos.DList.{Ptr}
use yuzuos.Paging.{Space}
use yuzuos.Scheduler.{
  State, Sched, lock, unlock, thread_queue, thread_update, thread_get_next, schedule, end_slice,
  handler, is_running, rank, tick, leave, thread_pop_next,
}
use yuzuos.Scheduler.Process.{
  Kernel, Blocks, load, process_fork, init, process_create, thread_create, set_sched, clone_mm,
  set_name, set_frame, copy_stack, queue_thread, forked, release_all, unmap_stack, end_process,
}
use yuzuos.Scheduler.Lock.{
  IsAt, lock-IsAt, unlock-IsAt, thread_update-IsAt, schedule-IsAt, thread_pop_next-IsAt, map_inv,
  bind_inv, moved,
}

end_slice-IsAt :
    (fuel n : ℕ) (s : Sched) {r : Sched × Bool}
    → n + 1 < 2 ^ 64
    → IsAt n s
    → end_slice fuel s ≡ some r
    → IsAt n r.0
unfolding end_slice
end_slice-IsAt fuel n s {r} h a e = elim (Bool-cases (thread_get_next s == 0)) [
  | inl empty ↦
      subst (λ (x : Sched × Bool). IsAt n x.0) (some-injective (s, false) r (rw empty at e)) a
  | inr some_left ↦
      let (visited, e1, f1) =
        bind_inv (DList.foreach fuel s.head s.queue.links) _ (rw some_left at e) in
      let (t, e2, f2) = map_inv _ (thread_update fuel s.current State.ready (rank visited s)) f1 in
      subst (λ (x : Sched × Bool). IsAt n x.0) f2
        (thread_update-IsAt fuel s.current State.ready n (rank visited s) h a e2)
]

leave-IsAt :
    (fuel n : ℕ) (r : Sched × Bool) {s' : Sched}
    → n + 2 < 2 ^ 64
    → IsAt (n + 1) r.0
    → leave fuel r ≡ some s'
    → IsAt n s'
leave-IsAt fuel n r {s'} h a e =
    let s = unlock r.0 in
    let b : IsAt n s = unlock-IsAt n r.0 (omega arith) a in
    elim (Bool-cases ((s.locks == 0) && r.1)) [
      | inl goes ↦ schedule-IsAt fuel n s h b (rw goes at e)
      | inr stays ↦ moved n (some-injective s s' (rw stays at e)) b
    ]

pub handler-IsAt :
    (fuel n : ℕ) (s : Sched) {s' : Sched}
    → n + 2 < 2 ^ 64
    → IsAt n s
    → handler fuel s ≡ some s'
    → IsAt n s'
unfolding handler
handler-IsAt fuel n s {s'} h a e = elim (Bool-cases (not (is_running s))) [
  | inl waits ↦ moved n (some-injective s s' (rw waits at e)) a
  | inr runs ↦
      let s1 = tick (lock s) in
      let b : IsAt (n + 1) s1 = lock-IsAt n s (omega arith) a in
      let (r, e1, f1) = bind_inv _ (leave fuel) (rw runs at e) in
      elim (Bool-cases (ltb (s1.threads s1.current).time 8)) [
        | inl within ↦
            let c =
              subst (λ (x : Sched × Bool). IsAt (n + 1) x.0)
                (some-injective (s1, false) r (rw within at e1)) b in
            leave-IsAt fuel n r h c f1
        | inr over ↦
            let c = end_slice-IsAt fuel (n + 1) s1 (omega arith) b (rw over at e1) in
            leave-IsAt fuel n r h c f1
      ]
]

create-IsAt :
    (parent : Ptr) (b : Blocks) (space : Space) (n : ℕ) (k : Kernel)
    → n + 1 < 2 ^ 64
    → IsAt n k.sched
    → IsAt n (process_create parent b space k).sched
unfolding process_create
create-IsAt parent b space n k h a = unlock-IsAt n (lock k.sched) h (lock-IsAt n k.sched h a)

thread_create-IsAt :
    (process : Ptr) (b : Blocks) (n : ℕ) (k : Kernel)
    → n + 1 < 2 ^ 64
    → IsAt n k.sched
    → IsAt n (thread_create process b k).sched
unfolding thread_create unlock
thread_create-IsAt process b n k h a = unlock-IsAt n (lock k.sched) h (lock-IsAt n k.sched h a)

queue_thread-IsAt :
    (fuel n : ℕ) (thread : Ptr) (k : Kernel) {k' : Kernel}
    → IsAt n k.sched
    → queue_thread fuel thread k ≡ some k'
    → IsAt n k'.sched
unfolding thread_queue
queue_thread-IsAt fuel n thread k a e =
    let (s, e1, f1) = map_inv _ _ e in
    let (q, e2, f2) = map_inv _ _ e1 in subst (λ (x : Kernel). IsAt n x.sched) f1 (moved n f2 a)

load-IsAt :
    (fuel entry name path n : ℕ) (b : Blocks) (space : Space) (k : Kernel) {k' : Kernel}
    → n + 1 < 2 ^ 64
    → IsAt n k.sched
    → load fuel entry name path b space k ≡ some k'
    → IsAt n k'.sched
unfolding load
load-IsAt fuel entry name path n b space k h a e =
    let k1 = set_name b.process name (process_create k.sched.process b space k) in
    let k2 = thread_create b.process b k1 in
    queue_thread-IsAt fuel n b.thread (set_frame b.thread entry path b.thread k2)
      (thread_create-IsAt b.process b n k1 h (create-IsAt k.sched.process b space n k h a)) e

fork-IsAt :
    (fuel user_entry parent name n : ℕ) (b : Blocks) (space : Space) (k : Kernel) {r : Kernel × ℕ}
    → n + 2 < 2 ^ 64
    → IsAt n k.sched
    → process_fork fuel user_entry parent name b space k ≡ some r
    → IsAt n r.0.sched
unfolding process_fork
fork-IsAt fuel user_entry parent name n b space k h a e =
    let (mm, e1, f1) = bind_inv (clone_mm fuel b (k.processes parent).proc.mm) _ e in
    let k0 = forked parent name b space mm k in
    let k1 = thread_create b.process b k0 in
    let k2 = set_frame b.thread user_entry b.thread 0 (copy_stack parent b.thread k1) in
    let c =
      thread_create-IsAt b.process b (n + 1) k0 (omega arith)
        (lock-IsAt n k.sched (omega arith) a) in
    let (q, e2, f2) = map_inv _ (queue_thread fuel b.thread (set_sched (unlock k2.sched) k2)) f1 in
    subst (λ (x : Kernel × ℕ). IsAt n x.0.sched) f2
      (queue_thread-IsAt fuel n b.thread (set_sched (unlock k2.sched) k2)
        (unlock-IsAt n k2.sched (omega arith) c) e2)

end_process-IsAt :
    (fuel n : ℕ) (can_release : Ptr → Bool) (code : ℤ) (k : Kernel) {k' : Kernel}
    → n + 2 < 2 ^ 64
    → IsAt n k.sched
    → end_process fuel can_release code k ≡ some k'
    → IsAt n k'.sched
unfolding end_process release_all unmap_stack
end_process-IsAt fuel n can_release code k h a e =
    elim (Bool-cases ((k.processes k.sched.process).pid == 1)) [
      | inl first ↦ let no_result = rw first at e in cc
      | inr other ↦
          let k0 = set_sched (lock k.sched) k in
          let (k1, e1, f1) = bind_inv (release_all fuel can_release code k0) _ (rw other at e) in
          let (p, e3, f3) = map_inv _ _ e1 in
          let a1 : IsAt (n + 1) k1.sched =
            subst (λ (x : Kernel). IsAt (n + 1) x.sched) f3 (lock-IsAt n k.sched (omega arith) a) in
          let (s, e4, f4) =
            bind_inv (thread_update fuel k1.sched.current State.terminated k1.sched) _ f1 in
          let a2 =
            thread_update-IsAt fuel k1.sched.current State.terminated (n + 1) k1.sched (omega arith)
              a1 e4 in
          let (k2, e5, f5) = map_inv _ (unmap_stack fuel (set_sched s k1)) f4 in
          let (space, e6, f6) = map_inv _ _ e5 in
          let a3 : IsAt (n + 1) k2.sched = subst (λ (x : Kernel). IsAt (n + 1) x.sched) f6 a2 in
          subst (λ (x : Kernel). IsAt n x.sched) f5 (unlock-IsAt n k2.sched (omega arith) a3)
    ]

-- `sched_schedule` where it waits: no thread is in the queue and the current one does not run, and it
-- stands at `sys_hlt`.
unfoldable pub wait_at : Sched → Sched
wait_at s = unlock (thread_pop_next (lock s)).0

wait_at-IsAt : (n : ℕ) (s : Sched) → n + 1 < 2 ^ 64 → IsAt n s → IsAt n (wait_at s)
unfolding wait_at
wait_at-IsAt n s h a = unlock-IsAt n _ h (thread_pop_next-IsAt (n + 1) (lock s) (lock-IsAt n s h a))

-- What happens to the kernel. The timer comes in between calls, where interrupts are enabled. Threads
-- call `sched_load`, `sched_process_fork` and `sched_exit`, the last up to its `sched_schedule`, which is
-- a step of its own, as it is in `kernel_main`. A `sched_schedule` that finds no thread waits, and goes
-- on from there as if it were called again, each time an interrupt has come in. The fuel of a step is
-- any number, so that a call is a step wherever it comes to its end.
pub data Step : Kernel → Kernel → Type 0 where
  timer :
      {k : Kernel} {s : Sched} (fuel : ℕ)
      → k.sched.interrupts ≡ true
      → handler fuel k.sched ≡ some s
      → Step k (set_sched s k)
  loads :
      {k k' : Kernel} (fuel entry name path : ℕ) (b : Blocks) (space : Space)
      → load fuel entry name path b space k ≡ some k'
      → Step k k'
  forks :
      {k : Kernel} {r : Kernel × ℕ} (fuel user_entry parent name : ℕ) (b : Blocks) (space : Space)
      → process_fork fuel user_entry parent name b space k ≡ some r
      → Step k r.0
  ends :
      {k k' : Kernel} (fuel : ℕ) (can_release : Ptr → Bool) (code : ℤ)
      → end_process fuel can_release code k ≡ some k'
      → Step k k'
  schedules :
      {k : Kernel} {s : Sched} (fuel : ℕ) → schedule fuel k.sched ≡ some s → Step k (set_sched s k)
  waits :
      {k : Kernel}
      → is_running k.sched ≡ false
      → (thread_pop_next (lock k.sched)).1 ≡ 0
      → Step k (set_sched (wait_at k.sched) k)

pub data Reach (k : Kernel) : Kernel → Type 0 where
  here : Reach k k
  next : {k1 k2 : Kernel} → Reach k k1 → Step k1 k2 → Reach k k2

Step-IsAt : {k k' : Kernel} → Step k k' → IsAt 0 k.sched → IsAt 0 k'.sched
Step-IsAt {k} (timer fuel on e) a = handler-IsAt fuel 0 k.sched (omega arith) a e
Step-IsAt {k} (loads fuel entry name path b space e) a =
    load-IsAt fuel entry name path 0 b space k (omega arith) a e
Step-IsAt {k} (forks fuel user_entry parent name b space e) a =
    fork-IsAt fuel user_entry parent name 0 b space k (omega arith) a e
Step-IsAt {k} (ends fuel can_release code e) a =
    end_process-IsAt fuel 0 can_release code k (omega arith) a e
Step-IsAt {k} (schedules fuel e) a = schedule-IsAt fuel 0 k.sched (omega arith) a e
Step-IsAt {k} (waits stopped empty) a = wait_at-IsAt 0 k.sched (omega arith) a

Reach-IsAt : {k k' : Kernel} → Reach k k' → IsAt 0 k.sched → IsAt 0 k'.sched
Reach-IsAt here a = a
Reach-IsAt (next r s) a = Step-IsAt s (Reach-IsAt r a)

init-IsAt : (b : Blocks) (space : Space) (k : Kernel) → IsAt 0 (init b space k).sched
unfolding init process_create thread_create lock unlock
init-IsAt b space k = (refl, refl)

-- In every state that the kernel reaches from that of `sched_init` by timer interrupts, calls of
-- `sched_load`, `sched_process_fork` and `sched_schedule` that come to their end, calls of `sched_exit`
-- up to its `sched_schedule`, and where `sched_schedule` waits for an interrupt, the lock of the
-- scheduler is free and interrupts are enabled.
pub Reach-unlocked :
    (b : Blocks) (space : Space) (k : Kernel) {k' : Kernel}
    → Reach (init b space k) k'
    → (k'.sched.locks ≡ 0) × (k'.sched.interrupts ≡ true)
Reach-unlocked b space k r =
    let a = Reach-IsAt r (init-IsAt b space k) in (a.0, ground (arith, a.1))
