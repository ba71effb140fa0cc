-- ===== src/Vga.antt =====
-- kernel/drivers/vga.c and vga.h: text on the screen.
-- The static variables are a record, with the cells behind `vga_buffer`; writes to ports are the list
-- of them in order. An enum colour is its number. Reads of the cursor's ports are parameters.
pub mod Bounds
use yuzuos.Base.{
  ℕ, zero, suc, ◌+◌, ◌*◌, ◌/◌, ◌%◌, ◌^◌, Bool, leb, ◌==◌, if◌then◌else◌, update, bit_and, bit_or,
  List, [], ◌∷◌, ◌++◌,
}

abbrev pub width : ℕ
width = 80

abbrev pub height : ℕ
height = 25

pub record Screen : Type 0 where
  pub row : ℕ
  pub column : ℕ
  pub color : ℕ
  pub buffer : ℕ → ℕ
  pub ports : List (ℕ × ℕ)

-- `vga_entry_color` and `vga_entry`
unfoldable pub entry_color : (foreground background : ℕ) → ℕ
entry_color foreground background = bit_or foreground (background * 2 ^ 4) % 2 ^ 8

unfoldable pub entry : (ch color : ℕ) → ℕ
entry ch color = bit_or (ch % 2 ^ 8) (color % 2 ^ 8 * 2 ^ 8)

abbrev pub outb : (port value : ℕ) → Screen → Screen
outb port value s = record s { ports = s.ports ++ (port, value) ∷ [] }

-- `high` and `low` are what the two reads give.
unfoldable pub cursor_get : (low high : ℕ) → ℕ
cursor_get low high = bit_or low (high * 2 ^ 8)

unfoldable pub cursor_update : (x y : ℕ) → Screen → Screen
cursor_update x y s =
    let at = (y * width + x) % 2 ^ 16 in
    outb 0x3d5 (at / 2 ^ 8) (outb 0x3d4 0x0e (outb 0x3d5 (at % 2 ^ 8) (outb 0x3d4 0x0f s)))

unfoldable pub cursor_enable : (inb inb' start end_at : ℕ) → Screen → Screen
cursor_enable inb inb' start end_at s =
    outb 0x3d5 (bit_or (bit_and inb' 0xe0) end_at)
      (outb 0x3d4 0x0b (outb 0x3d5 (bit_or (bit_and inb 0xc0) start) (outb 0x3d4 0x0a s)))

unfoldable pub cursor_disable : Screen → Screen
cursor_disable s = outb 0x3d5 0x20 (outb 0x3d4 0x0a s)

unfoldable pub write_char_at : (c color x y : ℕ) → Screen → Screen
write_char_at c color x y s = record s { buffer = update s.buffer (y * width + x) (entry c color) }

unfoldable pub new_line : Screen → Screen
new_line s = let row = s.row + 1 in record s { column = 0; row = if leb height row then 0 else row }

-- A line break moves to the next row; any other character is written at the cursor.
unfoldable pub put_char : (ch : ℕ) → Screen → Screen
unfolding new_line write_char_at
put_char ch s =
    let r = write_char_at ch s.color s.column s.row s in
    if ch == b'\n' then new_line s else record r { column = s.column + 1 }

unfoldable pub write_char : (ch : ℕ) → Screen → Screen
unfolding put_char new_line
write_char ch s =
    let t = put_char ch s in
    let u = if leb width t.column then new_line t else t in cursor_update u.column u.row u

-- The loop of `vga_write`, over the characters.
unfoldable pub write : List ℕ → Screen → Screen
write [] s = s
write (c ∷ cs) s = write cs (write_char c s)

-- The inner loop of `vga_clear`, and the outer one.
unfoldable pub clear_row : (left x y : ℕ) → Screen → Screen
clear_row zero x y s = s
clear_row (suc left) x y s =
    clear_row left (x + 1) y
      (record s { buffer = update s.buffer (y * width + x) (entry b' ' s.color) })

unfoldable pub clear_rows : (left y : ℕ) → Screen → Screen
clear_rows zero y s = s
clear_rows (suc left) y s = clear_rows left (y + 1) (clear_row width 0 y s)

unfoldable pub vga_clear : Screen → Screen
vga_clear s = let t = clear_rows height 0 s in cursor_update t.column t.row t

-- Light grey on black.
unfoldable pub vga_init : Screen → Screen
vga_init s = record s { row = 0; column = 0; color = entry_color 7 0 }
