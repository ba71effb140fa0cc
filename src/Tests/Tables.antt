-- ===== src/Tests/Tables.antt =====
-- The tables of descriptors and of handlers, and text on the screen.
use yuzuos.Base.{ℕ, ◌+◌, ◌*◌, ◌/◌, ◌%◌, ◌^◌, ◌≡◌, refl, arith, ◌==◌, if◌then◌else◌, List, [], ◌∷◌}
use yuzuos.DList.{Ptr}
use yuzuos.Interrupts.{irq_depth, irq_handler, pic_eoi}
use yuzuos.Interrupts.Dispatch.{set_all, of_line, no_handlers, irq_handler_lem}
use yuzuos.Descriptors.{GdtEntry, gdt_entry_add, IdtEntry, Gate, idt_init}
use yuzuos.Descriptors.Segments.{base_of, limit_of, flags_of, gdt_entry_add_lem}
use yuzuos.Descriptors.Vectors.{entry_at, gate_of, idt_init_lem}
use yuzuos.Vga.{Screen, write}
use yuzuos.Vga.Bounds.{IsOnScreen, write_lem}

-- Two handlers of the timer, with one of the keyboard between them.
abbrev handlers : List (ℕ × Ptr)
handlers = (0, 7000) ∷ (1, 7100) ∷ (0, 7200) ∷ []

irq_handler_lem_example :
    irq_handler 32 (set_all handlers no_handlers) ≡ (of_line irq_depth 0 handlers, pic_eoi 0)
irq_handler_lem_example =
    irq_handler_lem 0 handlers (omega arith)
      (omega arith, refl, (omega arith, refl, (omega arith, refl, tt)))

abbrev no_segments : ℕ → GdtEntry
no_segments i = record {
  limit_low = 0;
  base_low = 0;
  base_middle = 0;
  access = 0;
  granularity = 0;
  base_high = 0;
}

gdt_entry_add_lem_example :
    (let t = gdt_entry_add 5 0x1234_5678 0xffff_ffff 0x9a 0xcf no_segments in
      (base_of (t 5) ≡ 0x1234_5678)
      × (limit_of (t 5) ≡ 0xffff_ffff % 2 ^ 20)
      × (flags_of (t 5) ≡ 0xcf / 2 ^ 4)
      × ((t 5).access ≡ 0x9a)
      × (t 1 ≡ (if 1 == 5 then t 5 else no_segments 1)))
gdt_entry_add_lem_example =
    gdt_entry_add_lem 5 0x1234_5678 0xffff_ffff 0x9a 0xcf 1 no_segments (omega arith) (omega arith)

-- The functions in assembly stand 16 bytes apart.
abbrev address : Gate → ℕ
address (Gate.isr n) = 0x10_0000 + 16 * n
address (Gate.irq n) = 0x20_0000 + 16 * n

abbrev no_vectors : ℕ → IdtEntry
no_vectors i = record { base_low = 0; selector = 0; zero_byte = 0; flags = 0; base_high = 0 }

idt_init_lem_example :
    idt_init address no_vectors 21 ≡ entry_at address (no_vectors 21) (gate_of 21)
idt_init_lem_example = idt_init_lem address no_vectors 21 (omega arith)

-- The cursor in the last cell.
abbrev screen : Screen
screen = record { row = 24; column = 79; color = 7; buffer = λ i. 0; ports = [] }

screen-IsOnScreen : IsOnScreen screen
screen-IsOnScreen = record { row_within = omega arith; column_within = omega arith }

write_lem_example :
    IsOnScreen (write (b'a' ∷ b'\n' ∷ b'b' ∷ []) screen)
    × ((write (b'a' ∷ b'\n' ∷ b'b' ∷ []) screen).buffer 2000 ≡ 0)
write_lem_example = write_lem (b'a' ∷ b'\n' ∷ b'b' ∷ []) screen 2000 screen-IsOnScreen (omega arith)
