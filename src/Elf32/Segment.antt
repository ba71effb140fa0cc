-- ===== src/Elf32/Segment.antt =====
-- What a loaded segment leaves in memory.
use yuzuos.Base.{ℕ, ◌+◌, ◌-◌, ◌<◌, ◌≡◌, true, false, if◌then◌else◌, max}
use yuzuos.Strings.{is_in}
use yuzuos.Elf32.{Phdr, in_pages}
use yuzuos.Mmap.{Vm}

-- A byte of the segment, a zero behind them, or what was there.
abbrev pub segment_byte : (buffer : ℕ) → Phdr → (ℕ → ℕ) → ℕ → ℕ
segment_byte buffer h m a =
    if is_in h.vaddr h.filesz a
    then m (buffer + h.offset + (a - h.vaddr))
    else if is_in h.vaddr h.memsz a
    then 0
    else m a

-- The same once the pages of the area `v` have new frames.
abbrev pub loaded_byte : (buffer : ℕ) → Phdr → (content : ℕ → ℕ) → Vm → (ℕ → ℕ) → ℕ → ℕ
loaded_byte buffer h content v m a =
    if is_in h.vaddr h.filesz a
    then m (buffer + h.offset + (a - h.vaddr))
    else if is_in h.vaddr h.memsz a
    then 0
    else if in_pages v a
    then content a
    else m a

-- The segment lies in the pages of the area, and the bytes of the file outside of them.
pub record IsBacked (buffer : ℕ) (h : Phdr) (v : Vm) : Type 0 where
  pub within : (i : ℕ) → i < max h.filesz h.memsz → in_pages v (h.vaddr + i) ≡ true
  pub file_outside : (i : ℕ) → i < h.filesz → in_pages v (buffer + h.offset + i) ≡ false
