-- ===== src/Descriptors.antt =====
-- kernel/arch/x86/boot/gdt.c, idt.c and kernel/task/tss.c: the descriptor tables of the processor.
-- A table gives the entry at each index. Masks of low bits are remainders. The addresses of the
-- handlers in assembly and of the task segment are parameters; an index is one of the table, and an
-- access byte is below 256, as in all calls; loading the tables into the processor
-- is left out.
pub mod Segments
pub mod Vectors
use yuzuos.Base.{ℕ, ◌+◌, ◌*◌, ◌/◌, ◌%◌, ◌^◌, List, [], ◌∷◌, ◌++◌, bit_or, update}
use yuzuos.Bitmap.{u32}

-- `struct gdt_entry`
pub record GdtEntry : Type 0 where
  pub limit_low : ℕ
  pub base_low : ℕ
  pub base_middle : ℕ
  pub access : ℕ
  pub granularity : ℕ
  pub base_high : ℕ

unfoldable pub gdt_entry_add :
    (index base limit access granularity : ℕ) → (ℕ → GdtEntry) → ℕ → GdtEntry
gdt_entry_add index base limit access granularity gdt = update gdt index (record {
  base_low = base % 2 ^ 16;
  base_middle = base / 2 ^ 16 % 2 ^ 8;
  base_high = base / 2 ^ 24 % 2 ^ 8;
  limit_low = limit % 2 ^ 16;
  granularity = bit_or (limit / 2 ^ 16 % 2 ^ 4) (granularity / 2 ^ 4 * 2 ^ 4);
  access = access;
})

-- The fields of `struct tss_entry` that are written.
pub record Tss : Type 0 where
  pub ss0 : ℕ
  pub esp0 : ℕ
  pub cs : ℕ
  pub ss : ℕ
  pub es : ℕ
  pub ds : ℕ
  pub fs : ℕ
  pub gs : ℕ
  pub iomap : ℕ

unfoldable pub tss_set_stack : (ss esp : ℕ) → Tss → Tss
tss_set_stack ss esp t = record t { ss0 = ss; esp0 = esp }

abbrev pub tss_size : ℕ
tss_size = 104

-- `at` is the address of the task segment.
unfoldable pub tss_init : (at index ss esp : ℕ) → (ℕ → GdtEntry) → (ℕ → GdtEntry) × Tss
tss_init at index ss esp gdt = (
  gdt_entry_add index at (u32 (at + tss_size)) 0xe9 0 gdt,
  record {
    ss0 = ss;
    esp0 = esp;
    cs = 0x0b;
    ss = 0x13;
    es = 0x13;
    ds = 0x13;
    fs = 0x13;
    gs = 0x13;
    iomap = tss_size;
  },
)

unfoldable pub gdt_init : (at : ℕ) → (ℕ → GdtEntry) → (ℕ → GdtEntry) × Tss
gdt_init at gdt = tss_init at 5 0x10 0 (
    gdt_entry_add 4 0 0xffff_ffff 0xf2 0xcf (
      gdt_entry_add 3 0 0xffff_ffff 0xfa 0xcf (
        gdt_entry_add 2 0 0xffff_ffff 0x92 0xcf
          (gdt_entry_add 1 0 0xffff_ffff 0x9a 0xcf (gdt_entry_add 0 0 0 0 0 gdt)))))

-- `struct idt_entry`
pub record IdtEntry : Type 0 where
  pub base_low : ℕ
  pub selector : ℕ
  pub zero_byte : ℕ
  pub flags : ℕ
  pub base_high : ℕ

unfoldable pub idt_entry_add : (index base selector flags : ℕ) → (ℕ → IdtEntry) → ℕ → IdtEntry
idt_entry_add index base selector flags idt = update idt index (record {
  base_low = base % 2 ^ 16;
  base_high = base / 2 ^ 16 % 2 ^ 16;
  selector = selector;
  flags = flags;
  zero_byte = 0;
})

-- The functions in assembly: `isr0` to `isr31`, `isr127`, and `irq0` to `irq15`.
pub data Gate : Type 0 where
  isr : ℕ → Gate
  irq : ℕ → Gate

-- A call of `idt_entry_add` in `idt_init`, whose selector is always 0x08.
pub record Call : Type 0 where
  pub index : ℕ
  pub gate : Gate
  pub flags : ℕ

abbrev pub isr_call : (index n : ℕ) → Call
isr_call index n = record { index = index; gate = Gate.isr n; flags = 0x8e }

abbrev pub irq_call : (index n : ℕ) → Call
irq_call index n = record { index = index; gate = Gate.irq n; flags = 0x8e }

-- `0x8E | 0x60`
abbrev pub syscall_call : Call
syscall_call = record { index = 127; gate = Gate.isr 127; flags = bit_or 0x8e 0x60 }

-- The calls of `idt_init`, in order; `isr22` goes to the vector 21.
abbrev pub calls : List Call
calls =
    isr_call 0 0
    ∷ isr_call 1 1
    ∷ isr_call 2 2
    ∷ isr_call 3 3
    ∷ isr_call 4 4
    ∷ isr_call 5 5
    ∷ isr_call 6 6
    ∷ isr_call 7 7
    ∷ isr_call 8 8
    ∷ isr_call 9 9
    ∷ isr_call 10 10
    ∷ isr_call 11 11
    ∷ isr_call 12 12
    ∷ isr_call 13 13
    ∷ isr_call 14 14
    ∷ isr_call 15 15
    ∷ isr_call 16 16
    ∷ isr_call 17 17
    ∷ isr_call 18 18
    ∷ isr_call 19 19
    ∷ isr_call 20 20
    ∷ isr_call 21 21
    ∷ isr_call 21 22
    ∷ isr_call 23 23
    ∷ isr_call 24 24
    ∷ isr_call 25 25
    ∷ isr_call 26 26
    ∷ isr_call 27 27
    ∷ isr_call 28 28
    ∷ isr_call 29 29
    ∷ isr_call 30 30
    ∷ isr_call 31 31
    ∷ syscall_call
    ∷ irq_call 32 0
    ∷ irq_call 33 1
    ∷ irq_call 34 2
    ∷ irq_call 35 3
    ∷ irq_call 36 4
    ∷ irq_call 37 5
    ∷ irq_call 38 6
    ∷ irq_call 39 7
    ∷ irq_call 40 8
    ∷ irq_call 41 9
    ∷ irq_call 42 10
    ∷ irq_call 43 11
    ∷ irq_call 44 12
    ∷ irq_call 45 13
    ∷ irq_call 46 14
    ∷ irq_call 47 15
    ∷ syscall_call
    ∷ []

-- The calls made one after the other; `addr` gives the address of each function.
unfoldable pub run_calls : (addr : Gate → ℕ) → List Call → (ℕ → IdtEntry) → ℕ → IdtEntry
run_calls addr [] idt = idt
run_calls addr (c ∷ cs) idt =
    run_calls addr cs (idt_entry_add c.index (addr c.gate) 0x08 c.flags idt)

unfoldable pub idt_init : (addr : Gate → ℕ) → (ℕ → IdtEntry) → ℕ → IdtEntry
idt_init addr idt = run_calls addr calls idt
