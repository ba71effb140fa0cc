-- ===== src/Scheduler.antt =====
-- kernel/task/scheduler.c and scheduler.h: the lock of the scheduler, its queue and the current
-- thread.
-- A thread is the address of its `struct thread`; the queue holds the `struct plist_node` in it. The
-- switch of the stacks (sched_switch.S) changes no variable of the scheduler: what sched_schedule
-- does behind it runs for the thread that is current from then on. Interrupts that come in during
-- sys_hlt leave the scheduler as it is, since sched_handler returns at once while the current thread
-- is not running. The loops take fuel, and give `none` where it runs out.
pub mod Process
pub mod Lock
pub mod Reach
pub mod Fork
use yuzuos.Base.{
  ℕ, zero, suc, ◌+◌, ◌-◌, ◌%◌, ◌^◌, Bool, true, false, not, ◌&&◌, Option, none, some, ltb, ◌==◌,
  if◌then◌else◌, update, List, [], ◌∷◌,
}
use mathlib.Core.Option.{bind}
use mathlib.Core.Option
use yuzuos.Base.Int.{ℤ, pos, negsuc, sub_nat}
use yuzuos.Bitmap.{u32}
use yuzuos.DList.{Ptr}
use yuzuos.DList
use yuzuos.Plist.{Store}
use yuzuos.Plist

pub data State : Type 0 where
  ready running terminated : State

abbrev pub same_state : State → State → Bool
same_state State.ready State.ready = true
same_state State.running State.running = true
same_state State.terminated State.terminated = true
same_state _ _ = false

-- `struct thread`, without its saved registers and its node in the queue.
pub record Thread : Type 0 where
  pub tid : ℕ
  pub time : ℕ
  pub esp : ℕ
  pub stack_kernel : ℕ
  pub stack_user : ℕ
  pub state : State
  pub process : Ptr

-- The static variables, the threads in memory, `tss.esp0`, and whether interrupts are enabled.
pub record Sched : Type 0 where
  pub locks : ℕ
  pub interrupts : Bool
  pub head : Ptr
  pub queue : Store
  pub current : Ptr
  pub process : Ptr
  pub threads : Ptr → Thread
  pub esp0 : ℕ

-- `&thread->list` and `dlist_container` for it.
abbrev pub list_of : Ptr → Ptr
list_of thread = thread + 104

abbrev pub thread_of : Ptr → Ptr
thread_of node = node - 104

abbrev pub time_slice : ℕ
time_slice = 8

unfoldable pub lock : Sched → Sched
lock s = record s { interrupts = false; locks = (s.locks + 1) % 2 ^ 64 }

unfoldable pub unlock : Sched → Sched
unlock s =
    let n = (s.locks + 2 ^ 64 - 1) % 2 ^ 64 in
    record s { locks = n; interrupts = if n == 0 then true else s.interrupts }

-- The result is NULL, 0, where no thread stands in the queue.
unfoldable pub thread_get_next : Sched → Ptr
thread_get_next s =
    if Plist.is_head_empty s.head s.queue then 0 else thread_of (Plist.first s.head s.queue)

unfoldable pub thread_unqueue : Ptr → Sched → Sched
thread_unqueue thread s = record s { queue = Plist.remove (list_of thread) s.head s.queue }

unfoldable pub thread_pop_next : Sched → Sched × Ptr
unfolding thread_unqueue
thread_pop_next s =
    let thread = thread_of (Plist.first s.head s.queue) in
    if Plist.is_head_empty s.head s.queue then (s, 0) else (thread_unqueue thread s, thread)

unfoldable pub thread_queue : (fuel : ℕ) → Ptr → Sched → Option Sched
thread_queue fuel thread s =
    Option.map (λ (q : Store). record s { queue = q })
      (Plist.add fuel (list_of thread) s.head s.queue)

abbrev pub set_state : Ptr → State → Sched → Sched
set_state thread state s = record s {
  threads = update s.threads thread (record (s.threads thread) { state = state });
}

unfoldable pub thread_update : (fuel : ℕ) → Ptr → State → Sched → Option Sched
unfolding lock unlock thread_unqueue thread_queue
thread_update fuel thread state s =
    if same_state (s.threads thread).state state
    then some s
    else Option.map unlock
        (thread_queue fuel thread (set_state thread state (thread_unqueue thread (lock s))))

-- `thread->time = t`
abbrev pub set_time : Ptr → ℕ → Sched → Sched
set_time thread t s = record s {
  threads = update s.threads thread (record (s.threads thread) { time = t });
}

-- `sched_process = sched_thread->process`, what is loaded for it, and the `sti` that `sched_switch` ends
-- with, also where the lock is held.
abbrev pub enter : Sched → Sched
enter s = record s {
  process = (s.threads s.current).process;
  esp0 = (s.threads s.current).stack_kernel;
  interrupts = true;
}

unfoldable pub thread_switch : (fuel : ℕ) → Ptr → Sched → Option Sched
thread_switch fuel thread s =
    if s.current == thread
    then thread_update fuel s.current State.running (set_time s.current 0 s)
    else Option.map enter (
        thread_update fuel thread State.running (set_time thread 0 (record s { current = thread })))

abbrev pub is_running : Sched → Bool
is_running s = same_state (s.threads s.current).state State.running

-- The loop of `sched_schedule`: it waits for an interrupt and tries again.
unfoldable pub wait_next : (fuel : ℕ) → Sched → Option (Sched × Ptr)
unfolding lock unlock thread_pop_next
wait_next zero s = none
wait_next (suc fuel) s =
    let r = thread_pop_next (lock (unlock s)) in
    let rest = wait_next fuel r.0 in
    if not (r.1 == 0) then some r else if is_running r.0 then some (r.0, r.0.current) else rest

unfoldable pub pick_next : (fuel : ℕ) → Sched → Option (Sched × Ptr)
unfolding thread_pop_next wait_next
pick_next fuel s = let r = thread_pop_next s in if r.1 == 0 then wait_next fuel r.0 else some r

unfoldable pub schedule : (fuel : ℕ) → Sched → Option Sched
unfolding lock unlock pick_next thread_switch
schedule fuel s =
    if is_running s
    then some s
    else Option.map unlock
        (bind (pick_next fuel (lock s)) (λ (r : Sched × Ptr). thread_switch fuel r.1 r.0))

-- `a - b`
abbrev pub minus : ℤ → ℤ → ℤ
minus a (pos n) = sub_nat a n
minus (pos m) (negsuc n) = pos (m + n + 1)
minus (negsuc m) (negsuc n) = if ltb n m then negsuc (m - n - 1) else pos (n - m)

-- The body of the loop over the queue, at each of the nodes.
abbrev pub lower_prios : ℤ → List Ptr → (Ptr → ℤ) → Ptr → ℤ
lower_prios p [] f = f
lower_prios p (x ∷ xs) f =
    lower_prios p xs (update f (Plist.node_entry x) (minus (f (Plist.node_entry x)) p))

-- The priorities that `sched_handler` gives: the first node gets 0, and the current thread one more
-- than the last node.
abbrev pub rank : List Ptr → Sched → Sched
rank visited s =
    let q = s.queue in
    let lowered = lower_prios (q.prio (Plist.first s.head q)) visited q.prio in
    record s {
      queue = record q {
        prio =
            update lowered (list_of s.current) (minus (lowered (Plist.last s.head q)) (negsuc 0));
      };
    }

-- The end of the time slice: the state afterwards, and `can_sched`.
unfoldable pub end_slice : (fuel : ℕ) → Sched → Option (Sched × Bool)
unfolding thread_get_next thread_update
end_slice fuel s =
    if thread_get_next s == 0
    then some (s, false)
    else bind (DList.foreach fuel s.head s.queue.links) (λ (visited : List Ptr).
      Option.map (λ (t : Sched). (t, true))
        (thread_update fuel s.current State.ready (rank visited s)))

-- `sched_thread->time++`
abbrev pub tick : Sched → Sched
tick s = set_time s.current (u32 ((s.threads s.current).time + 1)) s

-- `sched_unlock` and what `sched_handler` does behind it.
abbrev pub leave : (fuel : ℕ) → Sched × Bool → Option Sched
leave fuel r = let s = unlock r.0 in if (s.locks == 0) && r.1 then schedule fuel s else some s

unfoldable pub handler : (fuel : ℕ) → Sched → Option Sched
unfolding lock unlock end_slice schedule
handler fuel s =
    let s1 = tick (lock s) in
    if not (is_running s)
    then some s
    else bind
        (if ltb (s1.threads s1.current).time time_slice
          then some (s1, false)
          else end_slice fuel s1)
        (leave fuel)
