-- ===== src/Tests/Threads.antt =====
-- A running thread at 5000, the only one in the queue at 100; its process at 6000 has one file.
use yuzuos.Base.{◌+◌, ◌*◌, ◌≡◌, refl, arith, true, some, none, [], ◌∷◌, ◌==◌, if◌then◌else◌}
use yuzuos.Base.Int.{pos}
use yuzuos.Bitmap.{u32}
use yuzuos.DList.{Ptr, Mem, add_tail, add, remove, head_init}
use yuzuos.Mmap.{Mm, mm_list}
use yuzuos.DList.Segment.{IsRing}
use yuzuos.Scheduler.{schedule}
use mathlib.Core.Option.{bind}
use yuzuos.Paging.{Space}
use yuzuos.Plist
use yuzuos.DList
use yuzuos.Scheduler.{State, Thread, Sched, thread_queue, handler}
use yuzuos.Scheduler.Process.{
  Kernel, Process, Blocks, init, set_sched, load, new_mm, clone_mm, clone_files, fd_max,
}
use yuzuos.Scheduler.Reach.{Step, Reach, Reach-unlocked}
use yuzuos.Scheduler.Fork.{news, AreCopied, holders, clone_mm_lem, clone_files_lem}

-- Every `struct dlist_head` is initialised.
abbrev initialised : Mem
initialised = record { next = λ p. p; prev = λ p. p }

abbrev thread : Thread
thread = record {
  tid = 2;
  time = 0;
  esp = 0;
  stack_kernel = 0x9000;
  stack_user = 0x2000;
  state = State.running;
  process = 6000;
}

abbrev sched : Sched
sched = record {
  locks = 0;
  interrupts = true;
  head = 100;
  queue = record { links = add_tail 5116 100 initialised; prio = λ p. pos 0 };
  current = 5000;
  process = 6000;
  threads = λ p. thread;
  esp0 = 0;
}

abbrev space : Space
space = record {
  dir = λ i. 0;
  tables = λ i j. 0;
  phys = record { bitmap = λ i. 0; used = 0; max_bits = 1024 };
}

-- The descriptors 0 and 1 hold the file at 900.
abbrev process : Process
process = record {
  pid = 2;
  exit_code = pos 0;
  parent = 0;
  thread = 5000;
  fd = λ n. if n == 0 then 900 else if n == 1 then 900 else 0;
  root = 0;
  mount = 0;
  name = 0;
  proc = record { mm = new_mm 7000; space = space };
}

abbrev kernel : Kernel
kernel = record {
  sched = sched;
  next_pid = 3;
  next_tid = 3;
  processes = λ p. process;
  frames = λ p. record { eip = 0; return_addr = 0; param1 = 0; param2 = 0 };
  counts = λ p. 1;
  released = [];
}

abbrev blocks : Blocks
blocks = record {
  process = 10000;
  mm = 11000;
  thread = 12000;
  stack = 13000;
  vm = λ k. 20000 + 100 * k;
}

-- The kernel behind `sched_load` of a first program.
abbrev started : Kernel
started = init blocks space kernel

abbrev next_blocks : Blocks
next_blocks = record {
  process = 30000;
  mm = 31000;
  thread = 32000;
  stack = 33000;
  vm = λ k. 40000 + 100 * k;
}

abbrev loaded : Kernel
loaded = elim (load 3 0xc000 50000 51000 next_blocks space started) [ some k ↦ k | none ↦ started ]

loads_program : load 3 0xc000 50000 51000 next_blocks space started ≡ some loaded
unfolding load thread_queue Plist.add Plist.node_init Plist.head_init DList.is_empty head_init init
loads_program = refl

-- `sched_schedule` takes the thread that has been queued.
abbrev scheduled : Sched
scheduled = elim (schedule 3 loaded.sched) [ some s ↦ s | none ↦ loaded.sched ]

schedules_thread : schedule 3 loaded.sched ≡ some scheduled
unfolding handler schedule load init thread_queue Plist.add Plist.remove Plist.node_init
    Plist.head_init DList.is_empty head_init bind add_tail DList.remove_init
schedules_thread = refl

runs : (scheduled.threads scheduled.current).state ≡ State.running
unfolding handler schedule load init thread_queue Plist.add Plist.remove Plist.node_init
    Plist.head_init DList.is_empty head_init bind add_tail DList.remove_init
runs = refl

-- The timer in the thread that runs: its time goes up.
abbrev ticked : Sched
ticked = elim (handler 3 scheduled) [ some s ↦ s | none ↦ scheduled ]

ticks : handler 3 scheduled ≡ some ticked
unfolding handler schedule load init thread_queue Plist.add Plist.remove Plist.node_init
    Plist.head_init DList.is_empty head_init bind add_tail DList.remove_init
ticks = refl

time_goes_up : (ticked.threads ticked.current).time ≡ 1
unfolding handler schedule load init thread_queue Plist.add Plist.remove Plist.node_init
    Plist.head_init DList.is_empty head_init bind add_tail DList.remove_init
time_goes_up = refl

abbrev at_work : Kernel
at_work = set_sched ticked (set_sched scheduled loaded)

-- It is loaded, made to run, and the timer comes in.
Reach-unlocked_example : (at_work.sched.locks ≡ 0) × (at_work.sched.interrupts ≡ true)
unfolding handler schedule load init thread_queue Plist.add Plist.remove Plist.node_init
    Plist.head_init DList.is_empty head_init bind add_tail DList.remove_init
Reach-unlocked_example = Reach-unlocked blocks space kernel {k' = at_work} (
    Reach.next
      (Reach.next
        (Reach.next Reach.here (Step.loads 3 0xc000 50000 51000 next_blocks space loads_program))
        (Step.schedules {k = loaded} {s = scheduled} 3 schedules_thread))
      (Step.timer {k = set_sched scheduled loaded} {s = ticked} 3 refl ticks))

-- The parent has the areas of `mm`, two.
abbrev two : Mm
two = record {
  at = 1000;
  brk = 0x8000;
  brk_end = 0x8000;
  cache = 0;
  links = add_tail 3020 1016 (add_tail 2020 1016 initialised);
  vms = λ p. record { start = 0x10000 + p; end_at = 0x20000 + p; flags = 0; file = 0; mm = 1000 };
}

two-IsRing : IsRing two.links 1016 (2020 ∷ 3020 ∷ [])
unfolding add_tail
two-IsRing = record {
  distinct = (refl, (refl, (refl, tt)));
  path = ((refl, refl), ((refl, refl), tt));
  closes = (refl, refl);
}

clone_mm_lem_example :
    (to : Mm) × (clone_mm 3 blocks two ≡ some to)
    × IsRing to.links (mm_list 11000) (news blocks.vm 0 (2020 ∷ 3020 ∷ []))
    × AreCopied blocks.vm 11000 0 (2020 ∷ 3020 ∷ []) two.vms to.vms
clone_mm_lem_example =
    clone_mm_lem 3 blocks two (2020 ∷ 3020 ∷ []) two-IsRing (omega arith) (refl, (refl, (refl, tt)))

clone_files_lem_example :
    ((clone_files 6000 kernel).0 ≡ process.fd)
    × (u32 ((clone_files 6000 kernel).1 900) ≡ u32 (1 + holders fd_max 0 process.fd 900))
clone_files_lem_example = clone_files_lem 6000 kernel 900 refl refl
