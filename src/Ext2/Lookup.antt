-- ===== src/Ext2/Lookup.antt =====
-- kernel/filesystem/ext2.c, kernel/utils/string.c: a name looked up in a directory.
-- A name is the list of its bytes before the closing zero. The result of `ext2_fs_lookup` is the
-- number of the inode, 0 for NULL; `none` where the walk over the entries of a block does not end.
use yuzuos.Base.{
  ℕ, zero, suc, ◌+◌, ◌-◌, ◌*◌, ◌/◌, ◌^◌, Bool, true, false, Option, none, some, ltb, ◌==◌,
  if◌then◌else◌, List, [], ◌∷◌,
}
use mathlib.Core.Option.{bind}
use mathlib.Core.Option
use yuzuos.Base.Int.{ℤ, pos, negsuc, sub_nat, eqb_ℤ}
use yuzuos.Bitmap.{u32}
use yuzuos.Stdio.Format.{to_int}
use yuzuos.Ext2.{bytes, word_at, upper_level0, upper_level1, upper_level2, upper_level3}

unfoldable pub strcmp : List ℕ → List ℕ → ℤ
strcmp [] [] = pos 0
strcmp [] (d ∷ ds) = sub_nat (pos 0) d
strcmp (c ∷ cs) [] = pos c
strcmp (c ∷ cs) (d ∷ ds) = let rest = strcmp cs ds in if c == d then rest else sub_nat (pos c) d

-- The text that an array of bytes holds.
abbrev pub until_zero : List ℕ → List ℕ
until_zero [] = []
until_zero (c ∷ cs) = if c == 0 then [] else c ∷ until_zero cs

-- -ENOENT
abbrev pub not_found : ℤ
not_found = negsuc 1

-- An `int` written to a `uint32_t`.
abbrev pub to_u32 : ℤ → ℕ
to_u32 (pos n) = u32 n
to_u32 (negsuc n) = 2 ^ 32 - 1 - n

abbrev pub is_positive_or_zero : ℤ → Bool
is_positive_or_zero (pos n) = true
is_positive_or_zero (negsuc n) = false

module _ (disk : ℕ → ℕ → ℕ) (blocksize : ℕ) (name : List ℕ) where
  -- The fields of `struct ext2_dir_entry` at an offset in a block.
  abbrev pub rec_len_at : (block size : ℕ) → ℕ
  rec_len_at block size = disk block (size + 4) + 2 ^ 8 * disk block (size + 5)

  abbrev pub name_at : (block size : ℕ) → List ℕ
  name_at block size = until_zero (bytes (disk block) (size + 8) (disk block (size + 6)))

  -- The loop of `ext2_fs_ino_find`, `size` bytes into the block.
  unfoldable pub ino_find : (fuel : ℕ) → (block size : ℕ) → Option ℤ
  unfolding strcmp
  ino_find zero block size = none
  ino_find (suc fuel) block size =
      let rest = ino_find fuel block (u32 (size + rec_len_at block size)) in
      if ltb size blocksize
      then (if eqb_ℤ (strcmp (name_at block size) name) (pos 0)
          then some (to_int (word_at disk block size))
          else rest)
      else some not_found

  -- The loop of `ext2_fs_bread_rec` over the block numbers in a block.
  unfoldable pub find_words : (ℕ → Option ℤ) → (left i block : ℕ) → ℤ → Option ℤ
  find_words find zero i block result = some result
  find_words find (suc left) i block result =
      bind (find (word_at disk block (4 * i)))
        (λ r. if is_positive_or_zero r then some r else find_words find left (i + 1) block r)

  unfoldable pub bread_rec : (fuel level block : ℕ) → Option ℤ
  unfolding ino_find find_words
  bread_rec fuel zero block = ino_find fuel block 0
  bread_rec fuel (suc level) block =
      find_words (λ b. bread_rec fuel level b) (blocksize / 4) 0 block not_found

  module _ (i_block : ℕ → ℕ) where
    -- `ino` after the conditions of `ext2_fs_lookup` for the block `i`.
    unfoldable pub ino_at : (fuel i : ℕ) → Option ℕ
    unfolding bread_rec
    ino_at fuel i =
        if ltb i upper_level0
        then Option.map to_u32 (bread_rec fuel 0 (i_block i))
        else if ltb i upper_level1
        then Option.map to_u32 (bread_rec fuel 1 (i_block 12))
        else if ltb i upper_level2
        then Option.map to_u32 (bread_rec fuel 2 (i_block 13))
        else if ltb i upper_level3
        then Option.map to_u32 (bread_rec fuel 3 (i_block 14))
        else some 0

    -- The loop of `ext2_fs_lookup`, `left` blocks before its end.
    unfoldable pub lookup_from : (fuel left i : ℕ) → Option ℕ
    unfolding ino_at
    lookup_from fuel zero i = some 0
    lookup_from fuel (suc left) i =
        let rest = lookup_from fuel left (i + 1) in
        if i_block i == 0
        then rest
        else bind (ino_at fuel i) (λ ino. if ltb 0 ino then some ino else rest)

    unfoldable pub lookup : (fuel i_blocks : ℕ) → Option ℕ
    unfolding lookup_from
    lookup fuel i_blocks = lookup_from fuel i_blocks 0
