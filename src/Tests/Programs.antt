-- ===== src/Tests/Programs.antt =====
-- A segment loaded into an area of a process.
use yuzuos.Base.{ℕ, ◌+◌, ◌*◌, some, none}
use yuzuos.DList.{Ptr}
use yuzuos.Mmap.Process.{Proc}
use yuzuos.Elf32.{Phdr, Image, map_anonymous}
use yuzuos.Mmap.{Vm}
use yuzuos.Tests.Regions.{process, unmapped_file}

-- Two bytes of the file, 16 in memory.
abbrev segment : Phdr
segment = record { type = 1; offset = 8; vaddr = 0x10000; filesz = 2; memsz = 16 }

abbrev image : Image
image = record { proc = process; memory = λ a. a }

abbrev no_file : ℕ → Ptr
no_file fd = 0

abbrev block : ℕ → Ptr
block k = 4000 + 100 * k

-- The frames of the first mapping hold 7 everywhere.
abbrev content : ℕ → ℕ → ℕ
content k a = 7

-- The process with the area mapped.
abbrev mapped : Proc × ℕ
mapped = elim (map_anonymous unmapped_file no_file 5 block content 0 0x10000 16 process) [
  | some r ↦ r
  | none ↦ (process, 0)
]

-- The area that holds the address.
abbrev area : Vm
area = process.mm.vms 2000
