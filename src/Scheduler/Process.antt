-- ===== src/Scheduler/Process.antt =====
-- kernel/task/scheduler.c: processes and threads made, forked and ended.
-- What calloc gives, the copied names and the spaces of virt_mm_addr_create and virt_mm_fork_dir are
-- arguments, and so are the addresses of the two functions in which a new thread starts. The areas of
-- each process stand in a memory of their own, which holds all that the walks over them read. A freed
-- block is not used again. Saved registers and log lines are left out.
use yuzuos.Base.{
  ℕ, zero, suc, ◌+◌, ◌-◌, ◌^◌, Bool, not, ◌&&◌, Option, none, some, ◌==◌, if◌then◌else◌, update,
  List, [], ◌∷◌, ◌++◌,
}
use mathlib.Core.Option.{bind}
use mathlib.Core.Option
use yuzuos.Base.Int.{ℤ, pos}
use yuzuos.Bitmap.{u32}
use yuzuos.DList.{Ptr}
use yuzuos.DList
use yuzuos.Plist
use yuzuos.Paging.{Space, addr_range_unmap}
use yuzuos.Mmap.{Mm, Vm, mm_list, vm_list, vm_entry, next_vm, first_vm}
use yuzuos.Mmap.Process.{Proc}
use yuzuos.Scheduler.{State, Thread, Sched, lock, unlock, thread_queue, thread_update, schedule}

-- `struct process`, with its files, its file system, its areas and its pages.
pub record Process : Type 0 where
  pub pid : ℕ
  pub exit_code : ℤ
  pub parent : Ptr
  pub thread : Ptr
  pub fd : ℕ → Ptr
  pub root : Ptr
  pub mount : Ptr
  pub name : Ptr
  pub proc : Proc

-- The fields of `struct trap_frame` that are not 0.
pub record Frame : Type 0 where
  pub eip : ℕ
  pub return_addr : ℕ
  pub param1 : ℕ
  pub param2 : ℕ

-- The scheduler, its counters, the processes and first frames in memory, the field `count` of each
-- file, and the files on which `release` has been called.
pub record Kernel : Type 0 where
  pub sched : Sched
  pub next_pid : ℕ
  pub next_tid : ℕ
  pub processes : Ptr → Process
  pub frames : Ptr → Frame
  pub counts : Ptr → ℕ
  pub released : List Ptr

-- The blocks for a new process.
pub record Blocks : Type 0 where
  pub process : Ptr
  pub mm : Ptr
  pub thread : Ptr
  pub stack : Ptr
  pub vm : ℕ → Ptr

abbrev pub fd_max : ℕ
fd_max = 512

abbrev pub stack_size : ℕ
stack_size = 0x2000

abbrev pub page_fault : ℕ
page_fault = 0xffff_ffff

abbrev pub set_sched : Sched → Kernel → Kernel
set_sched s k = record k { sched = s }

abbrev pub set_thread : Ptr → Thread → Sched → Sched
set_thread at t s = record s { threads = update s.threads at t }

-- The loop of `sched_process_clone_files`, `left` rounds before its end.
unfoldable pub count_files : (left i : ℕ) → (ℕ → Ptr) → (Ptr → ℕ) → Ptr → ℕ
count_files zero i fd counts = counts
count_files (suc left) i fd counts =
    count_files left (i + 1) fd
      (if not (fd i == 0) then update counts (fd i) (u32 (counts (fd i) + 1)) else counts)

-- The descriptors of the new process, and the counts; `parent` is 0 for NULL.
unfoldable pub clone_files : (parent : Ptr) → Kernel → (ℕ → Ptr) × (Ptr → ℕ)
clone_files parent k =
    let fd = (k.processes parent).fd in
    if parent == 0 then (λ _. 0, k.counts) else (fd, count_files fd_max 0 fd k.counts)

-- A `struct process_mm` of zeros with an empty list.
abbrev pub new_mm : Ptr → Mm
new_mm at = record {
  at = at;
  brk = 0;
  brk_end = 0;
  cache = 0;
  links = DList.head_init (mm_list at) (record { next = λ _. 0; prev = λ _. 0 });
  vms = λ _. record { start = 0; end_at = 0; flags = 0; file = 0; mm = 0 };
}

-- The body of the loop of `sched_process_clone_mm`, at each area of the parent.
unfoldable pub copy_areas : (fresh : ℕ → Ptr) → (i : ℕ) → List Ptr → (from to : Mm) → Mm
copy_areas fresh i [] from to = to
copy_areas fresh i (x ∷ xs) from to =
    let v : Vm = from.vms (vm_entry x) in
    copy_areas fresh (i + 1) xs from (record to {
      links = DList.add_tail (vm_list (fresh i)) (mm_list to.at) to.links;
      vms = update to.vms (fresh i) (record v { mm = to.at });
    })

unfoldable pub clone_mm : (fuel : ℕ) → Blocks → Mm → Option Mm
unfolding copy_areas
clone_mm fuel b from =
    let to = record (new_mm b.mm) { brk = from.brk; brk_end = from.brk_end; cache = from.cache } in
    Option.map (λ (visited : List Ptr). copy_areas b.vm 0 visited from to)
      (DList.foreach fuel (mm_list from.at) from.links)

-- The file system of a new process is a copy of its parent's, or NULL.
unfoldable pub process_create : (parent : Ptr) → Blocks → Space → Kernel → Kernel
unfolding lock unlock clone_files
process_create parent b space k =
    let files = clone_files parent k in
    record k {
      sched = unlock (lock k.sched);
      next_pid = u32 (k.next_pid + 1);
      counts = files.1;
      processes = update k.processes b.process (record {
        pid = k.next_pid;
        exit_code = pos 0;
        parent = parent;
        thread = 0;
        fd = files.0;
        root = if parent == 0 then 0 else (k.processes parent).root;
        mount = if parent == 0 then 0 else (k.processes parent).mount;
        name = 0;
        proc = record { mm = new_mm b.mm; space = space };
      });
    }

-- The new thread stands in no queue; its frame is 52 bytes long.
unfoldable pub thread_create : (process : Ptr) → Blocks → Kernel → Kernel
unfolding lock unlock
thread_create process b k =
    let p = k.processes process in
    let stack = u32 (b.stack + stack_size) in
    let esp = u32 (stack + 2 ^ 32 - 52) in
    let s = lock k.sched in
    let s1 =
      set_thread b.thread
        (record {
          tid = k.next_tid;
          time = 0;
          esp = esp;
          stack_kernel = stack;
          stack_user = 0;
          state = State.ready;
          process = process;
        })
        s in
    record k {
      sched = unlock (record s1 { queue = Plist.node_init (b.thread + 104) (pos 0) s1.queue });
      next_tid = u32 (k.next_tid + 1);
      processes = update k.processes process (record p { thread = b.thread });
      frames =
          update k.frames esp
            (record { eip = 0; return_addr = page_fault; param1 = 0; param2 = 0 });
    }

-- What a function writes into the frame of a thread.
abbrev pub set_frame : (thread eip param1 param2 : ℕ) → Kernel → Kernel
set_frame thread eip param1 param2 k =
    let esp = (k.sched.threads thread).esp in
    let f : Frame = k.frames esp in
    record k {
      frames = update k.frames esp (record f { eip = eip; param1 = param1; param2 = param2 });
    }

abbrev pub set_name : (process name : Ptr) → Kernel → Kernel
set_name process name k =
    let p : Process = k.processes process in
    record k { processes = update k.processes process (record p { name = name }) }

abbrev pub queue_thread : (fuel : ℕ) → Ptr → Kernel → Option Kernel
queue_thread fuel thread k =
    Option.map (λ (s : Sched). set_sched s k) (thread_queue fuel thread k.sched)

-- `sched_load`; `name` and `path` are the two copies of the path.
unfoldable pub load : (fuel entry name path : ℕ) → Blocks → Space → Kernel → Option Kernel
unfolding process_create thread_create
load fuel entry name path b space k =
    let k1 = set_name b.process name (process_create k.sched.process b space k) in
    let k2 = set_frame b.thread entry path b.thread (thread_create b.process b k1) in
    queue_thread fuel b.thread k2

-- The new process of `sched_process_fork`, before its thread is made.
abbrev pub forked : (parent name : Ptr) → Blocks → Space → Mm → Kernel → Kernel
forked parent name b space mm k =
    let p = k.processes parent in
    let files = clone_files parent k in
    record k {
      sched = lock k.sched;
      next_pid = u32 (k.next_pid + 1);
      counts = files.1;
      processes = update k.processes b.process (record {
        pid = k.next_pid;
        exit_code = pos 0;
        parent = parent;
        thread = 0;
        fd = files.0;
        root = p.root;
        mount = p.mount;
        name = name;
        proc = record { mm = mm; space = space };
      });
    }

-- `thread->stack_user = parent->thread->stack_user`
abbrev pub copy_stack : (parent thread : Ptr) → Kernel → Kernel
copy_stack parent thread k =
    let t = k.sched.threads thread in
    let from = k.sched.threads (k.processes parent).thread in
    set_sched (set_thread thread (record t { stack_user = from.stack_user }) k.sched) k

unfoldable pub process_fork :
    (fuel user_entry parent name : ℕ) → Blocks → Space → Kernel → Option (Kernel × ℕ)
unfolding clone_mm thread_create unlock
process_fork fuel user_entry parent name b space k =
    bind (clone_mm fuel b (k.processes parent).proc.mm) (λ mm.
      let k1 = thread_create b.process b (forked parent name b space mm k) in
      let k2 = set_frame b.thread user_entry b.thread 0 (copy_stack parent b.thread k1) in
      Option.map (λ (q : Kernel). (q, k.next_pid))
        (queue_thread fuel b.thread (set_sched (unlock k2.sched) k2)))

-- The descriptors, counts and calls of `release`, `left` rounds before the end of the loop of
-- `sched_exit`.
unfoldable pub release_files :
    (left i : ℕ)
    → (can_release : Ptr → Bool) → (counts : Ptr → ℕ) → (ℕ → Ptr)
    → List Ptr
    → (ℕ → Ptr) × List Ptr
release_files zero i can_release counts fd done = (fd, done)
release_files (suc left) i can_release counts fd done =
    let closes = not (fd i == 0) && (counts (fd i) == 1) && can_release (fd i) in
    release_files left (i + 1) can_release counts (if closes then update fd i 0 else fd)
      (if closes then done ++ fd i ∷ [] else done)

-- The loop of `sched_exit` over the areas, at `iter`.
unfoldable pub release_areas : (fuel : ℕ) → (iter : Ptr) → Proc → Option Proc
release_areas zero iter p = none
release_areas (suc fuel) iter p =
    let mm : Mm = p.mm in
    let v : Vm = mm.vms iter in
    let rest : Space → Option Proc = λ space.
      release_areas fuel (next_vm iter mm) (record {
        mm = record mm { links = DList.remove (vm_list iter) mm.links };
        space = space;
      }) in
    if vm_list iter == mm_list mm.at
    then some p
    else if v.file == 0
    then bind (addr_range_unmap fuel v.start v.end_at p.space) rest
    else rest p.space

-- The files and the areas of the process that ends, and its exit code.
unfoldable pub release_all : (fuel : ℕ) → (can_release : Ptr → Bool) → ℤ → Kernel → Option Kernel
unfolding release_files release_areas
release_all fuel can_release code k =
    let at = k.sched.process in
    let p : Process = k.processes at in
    let files = release_files fd_max 0 can_release k.counts p.fd k.released in
    Option.map
      (λ (proc : Proc). record k {
        released = files.1;
        processes =
            update k.processes at (record p { exit_code = code; fd = files.0; proc = proc });
      })
      (release_areas fuel (first_vm p.proc.mm) p.proc)

-- The pages of the stack are unmapped last.
unfoldable pub unmap_stack : (fuel : ℕ) → Kernel → Option Kernel
unmap_stack fuel k =
    let at = k.sched.process in
    let p : Process = k.processes at in
    let proc : Proc = p.proc in
    let stack = (k.sched.threads k.sched.current).stack_user in
    Option.map
      (λ (space : Space). record k {
        processes = update k.processes at (record p { proc = record proc { space = space } });
      })
      (addr_range_unmap fuel (u32 (stack + 2 ^ 32 - stack_size)) stack proc.space)

-- `sched_exit` up to its call of `sched_schedule`; `none` is also the panic of the first process.
unfoldable pub end_process : (fuel : ℕ) → (can_release : Ptr → Bool) → ℤ → Kernel → Option Kernel
end_process fuel can_release code k =
    if (k.processes k.sched.process).pid == 1
    then none
    else bind (release_all fuel can_release code (set_sched (lock k.sched) k)) (λ k1.
      bind (thread_update fuel k1.sched.current State.terminated k1.sched) (λ s.
        Option.map (λ (k2 : Kernel). set_sched (unlock k2.sched) k2)
          (unmap_stack fuel (set_sched s k1))))

unfoldable exit : (fuel : ℕ) → (can_release : Ptr → Bool) → ℤ → Kernel → Option Kernel
exit fuel can_release code k =
    bind (end_process fuel can_release code k)
      (λ k1. Option.map (λ (s : Sched). set_sched s k1) (schedule fuel k1.sched))

-- The variables of `sched_init`; the first thread is not put into the queue.
unfoldable pub init : Blocks → Space → Kernel → Kernel
unfolding process_create thread_create
init b space k =
    let s = k.sched in
    let k0 = record k {
      sched = record s { locks = 0; queue = Plist.head_init s.head s.queue };
      next_pid = 0;
      next_tid = 0;
    } in
    let k1 = process_create 0 b space k0 in
    let s1 = k1.sched in
    let k2 = thread_create b.process b (set_sched (record s1 { process = b.process }) k1) in
    let s2 = k2.sched in set_sched (record s2 { current = b.thread }) k2
