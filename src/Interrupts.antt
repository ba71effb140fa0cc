-- ===== src/Interrupts.antt =====
-- kernel/arch/x86/kernel/irq.c, isr.c and pic.c: the handlers of interrupts, and the controller.
-- A handler is the address of its function, 0 for NULL. What the code writes to ports is the list of
-- the writes in order, each a port with its byte; what it reads from them is a parameter. io_wait,
-- which only writes to an unused port, is left out.
pub mod Dispatch
use yuzuos.Base.{
  ℕ, zero, suc, ◌+◌, ◌-◌, ◌*◌, ◌^◌, Bool, true, false, ◌&&◌, Option, none, some, ltb, leb, ◌==◌,
  if◌then◌else◌, update, bit_and, bit_or, List, [], ◌∷◌, ◌++◌,
}
use yuzuos.DList.{Ptr}

-- IRQ_SIZE and IRQ_DEPTH
abbrev pub irq_size : ℕ
irq_size = 16

abbrev pub irq_depth : ℕ
irq_depth = 4

-- The place of the handler of rank `i` for a line.
abbrev pub slot : (i index : ℕ) → ℕ
slot i index = i * irq_size + index

-- The loop of `irq_handler_set`, `left` rounds before its end.
unfoldable pub set_from : (left i index : ℕ) → Ptr → (ℕ → Ptr) → ℕ → Ptr
set_from zero i index handler irq = irq
set_from (suc left) i index handler irq =
    let rest = set_from left (i + 1) index handler irq in
    if irq (slot i index) == 0 then update irq (slot i index) handler else rest

unfoldable pub irq_handler_set : (index : ℕ) → Ptr → (ℕ → Ptr) → ℕ → Ptr
irq_handler_set index handler irq = set_from irq_depth 0 index handler irq

-- The loop of `irq_handler_unset`.
unfoldable pub unset_from : (left i index : ℕ) → (ℕ → Ptr) → ℕ → Ptr
unset_from zero i index irq = irq
unset_from (suc left) i index irq = unset_from left (i + 1) index (update irq (slot i index) 0)

unfoldable pub irq_handler_unset : (index : ℕ) → (ℕ → Ptr) → ℕ → Ptr
irq_handler_unset index irq = unset_from irq_depth 0 index irq

-- The handlers that the loop of `irq_handler` calls; whatever they return, it goes on.
unfoldable pub called_from : (left i line : ℕ) → (ℕ → Ptr) → List Ptr
called_from zero i line irq = []
called_from (suc left) i line irq =
    let rest = called_from left (i + 1) line irq in
    if irq (slot i line) == 0 then [] else irq (slot i line) ∷ rest

-- A write of a byte to a port.
abbrev pub Write : Type 0
Write = ℕ × ℕ

-- PIC1_COMMAND, PIC1_DATA, PIC2_COMMAND and PIC2_DATA
abbrev pub pic1_command : ℕ
pic1_command = 0x20

abbrev pub pic1_data : ℕ
pic1_data = 0x21

abbrev pub pic2_command : ℕ
pic2_command = 0xa0

abbrev pub pic2_data : ℕ
pic2_data = 0xa1

unfoldable pub pic_eoi : (irq : ℕ) → List Write
pic_eoi irq = (if leb 8 irq then (pic2_command, 0x20) ∷ [] else []) ++ (pic1_command, 0x20) ∷ []

-- `mask1` and `mask2` are what stands in the data ports.
unfoldable pub pic_remap : (mask1 mask2 offset1 offset2 : ℕ) → List Write
pic_remap mask1 mask2 offset1 offset2 =
    (pic1_command, 0x11)
    ∷ (pic2_command, 0x11)
    ∷ (pic1_data, offset1)
    ∷ (pic2_data, offset2)
    ∷ (pic1_data, 4)
    ∷ (pic2_data, 2)
    ∷ (pic1_data, 1)
    ∷ (pic2_data, 1)
    ∷ (pic1_data, mask1)
    ∷ (pic2_data, mask2)
    ∷ []

-- The data port of a line, and its bit there.
abbrev pub port_of : ℕ → ℕ
port_of irq = if ltb irq 8 then pic1_data else pic2_data

abbrev pub bit_of : ℕ → ℕ
bit_of irq = if ltb irq 8 then irq else irq - 8

unfoldable pub pic_mask_set : (inb : ℕ → ℕ) → (irq : ℕ) → Write
pic_mask_set inb irq = (port_of irq, bit_or (inb (port_of irq)) (2 ^ bit_of irq))

-- `value & ~(1 << irq)` on a byte.
unfoldable pub pic_mask_unset : (inb : ℕ → ℕ) → (irq : ℕ) → Write
pic_mask_unset inb irq = (port_of irq, bit_and (inb (port_of irq)) (255 - 2 ^ bit_of irq))

-- The handlers that are called for an interrupt, and the writes behind them.
unfoldable pub irq_handler : (int_no : ℕ) → (ℕ → Ptr) → List Ptr × List Write
irq_handler int_no irq =
    if leb int_no 47 && leb 32 int_no
    then (called_from irq_depth 0 (int_no - 32) irq, pic_eoi (int_no - 32))
    else ([], [])

unfoldable pub isr_handler_set : (index : ℕ) → Ptr → (ℕ → Ptr) → ℕ → Ptr
isr_handler_set index handler isr = update isr index handler

unfoldable pub isr_handler_unset : (index : ℕ) → (ℕ → Ptr) → ℕ → Ptr
isr_handler_unset index isr = update isr index 0

-- The handler that is called; `none` is a panic.
unfoldable pub isr_handler : (int_no : ℕ) → (ℕ → Ptr) → Option Ptr
isr_handler int_no isr = if isr int_no == 0 then none else some (isr int_no)
