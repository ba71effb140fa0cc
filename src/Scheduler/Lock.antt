-- ===== src/Scheduler/Lock.antt =====
-- kernel/task/scheduler.c: the lock is balanced, and interrupts are enabled where it is free.
use yuzuos.Base.{
  ℕ, zero, suc, ◌+◌, ◌^◌, ◌<◌, ◌≡◌, refl, true, ◌||◌, arith, not, Option, some, ◌==◌, Bool-cases,
  inl, inr,
}
use mathlib.Core.Option.{bind}
use mathlib.Core.Path.{subst}
use mathlib.Core.Option.{some-injective}
use mathlib.Core.Option
use yuzuos.DList.{Ptr}
use yuzuos.Scheduler.{
  State, same_state, Sched, set_time, lock, unlock, thread_queue, thread_unqueue, thread_update,
  thread_switch, thread_pop_next, wait_next, pick_next, schedule, is_running,
}

-- The lock is held `n` times, and interrupts are enabled if that is not at all.
abbrev pub IsAt : ℕ → Sched → Type 0
IsAt n s = (s.locks ≡ n) × ((s.interrupts || not (n == 0)) ≡ true)

pub lock-IsAt : (n : ℕ) (s : Sched) → n + 1 < 2 ^ 64 → IsAt n s → IsAt (n + 1) (lock s)
unfolding lock
lock-IsAt n s h a = ground (arith, a.0)

pub unlock-IsAt : (n : ℕ) (s : Sched) → n + 1 < 2 ^ 64 → IsAt (n + 1) s → IsAt n (unlock s)
unfolding unlock
unlock-IsAt n s h a = ground (arith, a.0)

-- What a successful `map` or `bind` tells.
pub map_inv {ℓ κ} :
    {A : Type ℓ} {B : Type κ} (f : A → B) (o : Option A) {b : B}
    → Option.map f o ≡ some b
    → (a : A) × (o ≡ some a) × (f a ≡ b)
map_inv f o h = (Option.map-eq-some_iff f o).0 h

pub bind_inv {ℓ κ} :
    {A : Type ℓ} {B : Type κ} (o : Option A) (f : A → Option B) {b : B}
    → bind o f ≡ some b
    → (a : A) × (o ≡ some a) × (f a ≡ some b)
bind_inv o f h = (Option.bind-eq-some_iff o f).0 h

pub moved : (n : ℕ) {s t : Sched} → s ≡ t → IsAt n s → IsAt n t
moved n e a = subst (λ (x : Sched). IsAt n x) e a

moved_pair : (n : ℕ) {r q : Sched × Ptr} → r ≡ q → IsAt n r.0 → IsAt n q.0
moved_pair n e a = subst (λ (x : Sched × Ptr). IsAt n x.0) e a

pub thread_update-IsAt :
    (fuel : ℕ) (t : Ptr) (st : State) (n : ℕ) (s : Sched) {s' : Sched}
    → n + 1 < 2 ^ 64
    → IsAt n s
    → thread_update fuel t st s ≡ some s'
    → IsAt n s'
unfolding thread_update thread_queue thread_unqueue
thread_update-IsAt fuel t st n s {s'} h a e =
    elim (Bool-cases (same_state (s.threads t).state st)) [
      | inl same ↦ moved n (some-injective s s' (rw same at e)) a
      | inr other ↦
          let (s1, e1, f1) = map_inv unlock _ (rw other at e) in
          let (q, e2, f2) = map_inv _ _ e1 in
          moved n f1 (unlock-IsAt n s1 h (moved (n + 1) f2 (lock-IsAt n s h a)))
    ]

thread_switch-IsAt :
    (fuel : ℕ) (t : Ptr) (n : ℕ) (s : Sched) {s' : Sched}
    → n + 1 < 2 ^ 64
    → IsAt n s
    → thread_switch fuel t s ≡ some s'
    → IsAt n s'
unfolding thread_switch
thread_switch-IsAt fuel t n s h a e = elim (Bool-cases (s.current == t)) [
  | inl same ↦
      thread_update-IsAt fuel s.current State.running n (set_time s.current 0 s) h a (rw same at e)
  | inr other ↦
      let (s1, e1, f1) = map_inv _ _ (rw other at e) in
      let s0 = set_time t 0 (record s { current = t }) in
      let b = thread_update-IsAt fuel t State.running n s0 h a e1 in moved n f1 (b.0, refl)
]

pub thread_pop_next-IsAt : (n : ℕ) (s : Sched) → IsAt n s → IsAt n (thread_pop_next s).0
unfolding thread_pop_next thread_unqueue
thread_pop_next-IsAt n s a = ground arith

wait_next-IsAt :
    (fuel n : ℕ) (s : Sched) {r : Sched × Ptr}
    → n + 1 < 2 ^ 64
    → IsAt (n + 1) s
    → wait_next fuel s ≡ some r
    → IsAt (n + 1) r.0
unfolding wait_next
wait_next-IsAt zero n s h a e = cc
wait_next-IsAt (suc fuel) n s {r} h a e =
    let s1 = lock (unlock s) in
    let r1 = thread_pop_next s1 in
    let b : IsAt (n + 1) r1.0 =
      thread_pop_next-IsAt (n + 1) s1 (lock-IsAt n (unlock s) h (unlock-IsAt n s h a)) in
    elim (Bool-cases (not (r1.1 == 0))) [
      | inl found ↦ moved_pair (n + 1) (some-injective r1 r (rw found at e)) b
      | inr none_left ↦ elim (Bool-cases (is_running r1.0)) [
        | inl runs ↦
            moved_pair (n + 1) (some-injective (r1.0, r1.0.current) r (rw (none_left, runs) at e)) b
        | inr waits ↦ wait_next-IsAt fuel n r1.0 h b (rw (none_left, waits) at e)
      ]
    ]

pick_next-IsAt :
    (fuel n : ℕ) (s : Sched) {r : Sched × Ptr}
    → n + 1 < 2 ^ 64
    → IsAt (n + 1) s
    → pick_next fuel s ≡ some r
    → IsAt (n + 1) r.0
unfolding pick_next
pick_next-IsAt fuel n s {r} h a e =
    let b = thread_pop_next-IsAt (n + 1) s a in
    elim (Bool-cases ((thread_pop_next s).1 == 0)) [
      | inl none_left ↦ wait_next-IsAt fuel n (thread_pop_next s).0 h b (rw none_left at e)
      | inr found ↦ moved_pair (n + 1) (some-injective (thread_pop_next s) r (rw found at e)) b
    ]

pub schedule-IsAt :
    (fuel n : ℕ) (s : Sched) {s' : Sched}
    → n + 2 < 2 ^ 64
    → IsAt n s
    → schedule fuel s ≡ some s'
    → IsAt n s'
unfolding schedule
schedule-IsAt fuel n s {s'} h a e = elim (Bool-cases (is_running s)) [
  | inl runs ↦ moved n (some-injective s s' (rw runs at e)) a
  | inr waits ↦
      let (s1, e1, f1) = map_inv unlock _ (rw waits at e) in
      let (r, e2, f2) = bind_inv _ _ e1 in
      let b = pick_next-IsAt fuel n (lock s) (omega arith) (lock-IsAt n s (omega arith) a) e2 in
      let c = thread_switch-IsAt fuel r.1 (n + 1) r.0 (omega arith) b f2 in
      moved n f1 (unlock-IsAt n s1 (omega arith) c)
]
