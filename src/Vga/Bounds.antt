-- ===== src/Vga/Bounds.antt =====
-- kernel/drivers/vga.c: what is written stays on the screen.
use yuzuos.Base.{
  ℕ, zero, suc, ◌+◌, ◌*◌, ◌&&◌, ◌<◌, ◌≤◌, ◌≡◌, refl, ◌∙◌, arith, leb, ltb, if◌then◌else◌, update,
  List, [], ◌∷◌,
}
use yuzuos.Vga.{
  Screen, width, height, entry, new_line, write_char_at, write_char, write, cursor_update,
  clear_row, clear_rows, vga_clear,
}

pub record IsOnScreen (s : Screen) : Type 0 where
  pub row_within : s.row < height
  pub column_within : s.column < width

-- The last position that the cursor has been moved to, in the order of the ports.
new_line-IsOnScreen : (s : Screen) → s.row < height → IsOnScreen (new_line s)
unfolding new_line
new_line-IsOnScreen s h = ground arith

-- One character: the cursor stays on the screen, and so does what is written.
record IsStep (s t : Screen) : Type 0 where
  on_screen : IsOnScreen t
  outside : (i : ℕ) → width * height ≤ i → t.buffer i ≡ s.buffer i

cursor_update-same :
    (x y : ℕ) (s : Screen)
    → ((cursor_update x y s).row ≡ s.row)
      × ((cursor_update x y s).column ≡ s.column)
      × ((cursor_update x y s).buffer ≡ s.buffer)
unfolding cursor_update
cursor_update-same x y s = (refl, refl, refl)

write_char-IsStep : (c : ℕ) (s : Screen) → IsOnScreen s → IsStep s (write_char c s)
unfolding write_char write_char_at cursor_update
write_char-IsStep c s h = record { on_screen = ground arith; outside = λ i far. ground arith }

-- Text written from a cursor on the screen leaves the cursor on the screen, whatever the text is, and
-- changes no cell behind the 2000 cells of the screen.
pub write_lem :
    (cs : List ℕ) (s : Screen) (i : ℕ)
    → IsOnScreen s
    → width * height ≤ i
    → IsOnScreen (write cs s) × ((write cs s).buffer i ≡ s.buffer i)
unfolding write
write_lem [] s i h far = (h, refl)
write_lem (c ∷ cs) s i h far =
    let step = write_char-IsStep c s h in
    let rest = write_lem cs (write_char c s) i step.on_screen far in
    (rest.0, rest.1 ∙ step.outside i far)

clear_row_lem :
    (left x y i : ℕ) (s : Screen)
    → ((clear_row left x y s).buffer i ≡ (
        if leb (y * width + x) i && ltb i (y * width + x + left)
        then entry b' ' s.color
        else s.buffer i))
      × ((clear_row left x y s).color ≡ s.color)
unfolding clear_row
clear_row_lem zero x y i s = ground arith
clear_row_lem (suc left) x y i s = ground (
  arith,
  clear_row_lem left (x + 1) y i
      (record s { buffer = update s.buffer (y * width + x) (entry b' ' s.color) }),
)

clear_rows_lem :
    (left y i : ℕ) (s : Screen)
    → ((clear_rows left y s).buffer i ≡ (
        if leb (y * width) i && ltb i ((y + left) * width) then entry b' ' s.color else s.buffer i))
unfolding clear_rows
clear_rows_lem zero y i s = ground arith
clear_rows_lem (suc left) y i s =
    let row = clear_row_lem width 0 y i s in
    ground (arith, row, clear_rows_lem left (y + 1) i (clear_row width 0 y s))

-- `vga_clear` puts a blank in the current colour into each of the 2000 cells of the screen, and
-- changes no other.
pub vga_clear_lem :
    (i : ℕ) (s : Screen)
    → (vga_clear s).buffer i ≡ (if ltb i (width * height) then entry b' ' s.color else s.buffer i)
unfolding vga_clear cursor_update
vga_clear_lem i s = clear_rows_lem height 0 i s ∙ ground arith
