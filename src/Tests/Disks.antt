-- ===== src/Tests/Disks.antt =====
-- Reads and lookups on small disks.
use yuzuos.Base.{ℕ, ◌+◌, ◌-◌, ◌*◌, ◌≡◌, refl, arith, some, List, [], ◌∷◌, min}
use mathlib.Core.Option.{bind}
use yuzuos.Stdio.Emit.{char_at}
use yuzuos.Ext2.{read, bytes, word_at}
use yuzuos.Ext2.Read.{read_lem, file_byte}
use yuzuos.Ext2.Indirect.{read_indirect_lem}
use yuzuos.Ext2.Lookup.{lookup, to_u32}
use yuzuos.Ext2.Entries.{Entry, entry_of, lookup_lem}

-- Each byte tells its block and offset.
abbrev numbered : ℕ → ℕ → ℕ
numbered block offset = 10000 * block + offset

abbrev own_blocks : ℕ → ℕ
own_blocks i = 40 + i

read_lem_example :
    read numbered 1024 own_blocks 5000 13 1000 100
    ≡ some (
      bytes (file_byte numbered 1024 own_blocks) 1000 (min (1000 + 100) 5000 - 1000),
      1000 + (min (1000 + 100) 5000 - 1000),
      min (1000 + 100) 5000 - 1000,
    )
read_lem_example =
    read_lem numbered 1024 own_blocks 5000 13 1000 100 (omega arith) (omega arith) (omega arith)
      (omega arith) (omega arith) (omega arith) (omega arith)

read_indirect_lem_example :
    read numbered 1024 own_blocks 20000 2 (1024 * 13) 100
    ≡ some (bytes (numbered (word_at numbered (own_blocks 12) 0)) 0 100, 1024 * 13 + 100, 100)
read_indirect_lem_example =
    read_indirect_lem numbered 1024 own_blocks 20000 0 13 100 (omega arith) (omega arith)
      (omega arith) (omega arith) (omega arith) (omega arith) (omega arith) (omega arith)

-- Two entries of twelve bytes: "a" with the inode 11, and "b" with the inode 13.
abbrev image : List ℕ
image =
    11 ∷ 0 ∷ 0 ∷ 0 ∷ 12 ∷ 0 ∷ 1 ∷ 1 ∷ b'a' ∷ 0 ∷ 0 ∷ 0 ∷ 13 ∷ 0 ∷ 0 ∷ 0 ∷ 12 ∷ 0 ∷ 1 ∷ 1 ∷ b'b' ∷ 0
    ∷ 0 ∷ 0 ∷ []

abbrev dir_disk : ℕ → ℕ → ℕ
dir_disk block offset = char_at image offset

abbrev entries : List Entry
entries =
    record { ino = 11; name = b'a' ∷ []; rec_len = 12 }
    ∷ record { ino = 13; name = b'b' ∷ []; rec_len = 12 }
    ∷ []

-- A name that is there, and one that is not.
lookup_lem_example :
    lookup dir_disk 24 (b'b' ∷ []) own_blocks 5 2 ≡ some (to_u32 (entry_of (b'b' ∷ []) entries))
lookup_lem_example =
    lookup_lem dir_disk 24 (omega arith) (b'b' ∷ []) own_blocks 5 2 entries (refl, tt) (omega arith)
      refl
      (
        omega arith,
        refl,
        omega arith,
        omega arith,
        refl,
        refl,
        (refl, tt),
        (omega arith, refl, omega arith, omega arith, refl, refl, (refl, tt), refl),
      )
      (omega arith)

missing_name : lookup dir_disk 24 (b'c' ∷ []) own_blocks 5 2 ≡ some 0xffff_fffe
unfolding lookup bind
missing_name = refl
