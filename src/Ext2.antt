-- ===== src/Ext2.antt =====
-- kernel/filesystem/ext2.c and ext2.h: where the inodes of a file system stand, and a file read over
-- its blocks.
-- What virt_fs_bread reads is a parameter, the bytes of each block of the disk. `buffer` is the list
-- of the bytes written to it so far; `ppos` has 64 bits, positions in a block and counts 32.
pub mod Read
pub mod Indirect
pub mod Lookup
pub mod Entries
use yuzuos.Base.{
  ℕ, zero, suc, ◌+◌, ◌-◌, ◌*◌, ◌/◌, ◌%◌, ◌^◌, Bool, Option, none, some, ltb, if◌then◌else◌, List,
  [], ◌∷◌, ◌++◌, min,
}
use mathlib.Core.Option
use yuzuos.Bitmap.{u32}

-- The fields of `struct ext2_sb` that place an inode.
pub record Super : Type 0 where
  pub first_data_block : ℕ
  pub log_block_size : ℕ
  pub inodes_per_group : ℕ
  pub inode_size : ℕ

-- EXT2_MIN_BLOCK_SIZE, EXT2_BLOCK_SIZE, EXT2_GROUPS_P_BLOCK and EXT2_INODES_P_BLOCK; a group
-- descriptor has 32 bytes.
abbrev pub min_block_size : ℕ
min_block_size = 1024

abbrev pub block_size : Super → ℕ
block_size sb = u32 (min_block_size * 2 ^ sb.log_block_size)

abbrev pub groups_per_block : Super → ℕ
groups_per_block sb = block_size sb / 32

abbrev pub inodes_per_block : Super → ℕ
inodes_per_block sb = block_size sb / sb.inode_size

-- EXT2_GET_GROUP_FROM_INODE and EXT2_GET_RELATIVE_INODE_IN_GROUP
abbrev pub group_of : Super → ℕ → ℕ
group_of sb ino = u32 (ino + 2 ^ 32 - 1) / sb.inodes_per_group

abbrev pub index_in_group : Super → ℕ → ℕ
index_in_group sb ino = u32 (ino + 2 ^ 32 - 1) % sb.inodes_per_group

-- EXT2_INO_UPPER_LEVEL0 and the levels behind it.
abbrev pub upper_level0 : ℕ
upper_level0 = 12

abbrev pub upper_level1 : ℕ
upper_level1 = 268

abbrev pub upper_level2 : ℕ
upper_level2 = 65804

abbrev pub upper_level3 : ℕ
upper_level3 = 16843020

-- The position of a read in the file, and what has been written to the buffer.
pub record Reader : Type 0 where
  pub target_pos : ℕ
  pub buffer : List ℕ

-- `n` bytes from `p` on, as `memcpy` takes them.
abbrev pub bytes : (ℕ → ℕ) → (p n : ℕ) → List ℕ
bytes f p zero = []
bytes f p (suc n) = f p ∷ bytes f (p + 1) n

module _ (disk : ℕ → ℕ → ℕ) where
  -- A `uint32_t` of a block, from its lowest byte on.
  abbrev pub word_at : (block offset : ℕ) → ℕ
  word_at block offset =
      let byte = disk block in
      byte offset
      + 2 ^ 8 * byte (offset + 1)
      + 2 ^ 16 * byte (offset + 2)
      + 2 ^ 24 * byte (offset + 3)

  -- `bg_inode_table` of the descriptor that `ext2_fs_group_desc_get` copies.
  pub inode_table : Super → (group : ℕ) → ℕ
  inode_table sb group =
      let block = u32 (sb.first_data_block + 1 + group / groups_per_block sb) in
      word_at block (group % groups_per_block sb * 32 + 8)

  -- `ext2_fs_inode_get`: the block of an inode and its offset there.
  pub inode_get : Super → (ino : ℕ) → ℕ × ℕ
  unfolding inode_table
  inode_get sb ino =
      let index = index_in_group sb ino in
      (
        u32 (inode_table sb (group_of sb ino) + index / inodes_per_block sb),
        index % inodes_per_block sb * sb.inode_size,
      )

  module _ (blocksize : ℕ) where
    -- One block of the file, level 0 of `ext2_fs_bread_n_rec`.
    unfoldable pub read_block : (block ppos count : ℕ) → Reader → Reader
    read_block block ppos count r =
        let pos_start = if ltb r.target_pos ppos then ppos - r.target_pos else 0 in
        let next = u32 (r.target_pos + blocksize) in
        let pos_end = if ltb (ppos + count) next then next - ppos - count else 0 in
        let n = u32 (blocksize + 2 ^ 33 - pos_start - pos_end) in
        record { target_pos = next; buffer = r.buffer ++ bytes (disk block) pos_start n }

    -- The loop over the block numbers in a block.
    unfoldable pub read_words : (ℕ → Reader → Reader) → (left i block end_pos : ℕ) → Reader → Reader
    read_words read zero i block end_pos r = r
    read_words read (suc left) i block end_pos r =
        let rest = read_words read left (i + 1) block end_pos (read (word_at block (4 * i)) r) in
        if ltb r.target_pos end_pos then rest else r

    unfoldable pub bread_n_rec : (level block ppos count : ℕ) → Reader → Reader
    unfolding read_block read_words
    bread_n_rec zero block ppos count r = read_block block ppos count r
    bread_n_rec (suc level) block ppos count r =
        read_words (λ b q. bread_n_rec level b ppos count q) (blocksize / 4) 0 block (ppos + count)
          r

    module _ (i_block : ℕ → ℕ) (i_size : ℕ) where
      -- One round of the loop of `ext2_fs_read`.
      unfoldable pub read_round : (ppos count : ℕ) → Reader → Reader
      unfolding bread_n_rec
      read_round ppos count r =
          let block = r.target_pos / blocksize in
          if ltb block upper_level0
          then bread_n_rec 0 (i_block block) ppos count r
          else if ltb block upper_level1
          then bread_n_rec 1 (i_block 12) ppos count r
          else if ltb block upper_level2
          then bread_n_rec 2 (i_block 13) ppos count r
          else if ltb block upper_level3
          then bread_n_rec 3 (i_block 14) ppos count r
          else r

      unfoldable pub read_loop : (fuel ppos count : ℕ) → Reader → Option Reader
      unfolding read_round
      read_loop zero ppos count r = none
      read_loop (suc fuel) ppos count r =
          let rest = read_loop fuel ppos count (read_round ppos count r) in
          if ltb r.target_pos (ppos + count) then rest else some r

      -- The count that is left once the read ends with the file.
      abbrev pub count_left : (ppos count : ℕ) → ℕ
      count_left ppos count = u32 (min (u32 (ppos + count)) i_size + 2 ^ 64 - ppos)

      -- `ext2_fs_read`: the bytes in the buffer, `file->pos` and the result.
      unfoldable pub read : (fuel ppos count : ℕ) → Option (List ℕ × ℕ × ℕ)
      unfolding read_loop
      read fuel ppos count =
          let n = count_left ppos count in
          let r : Reader = record {
            target_pos = u32 (ppos / blocksize * blocksize);
            buffer = [];
          } in
          Option.map (λ (q : Reader). (q.buffer, ppos + n, n)) (read_loop fuel ppos n r)
