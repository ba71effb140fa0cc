-- ===== src/Ext2/Indirect.antt =====
-- A read of a block that the inode does not name itself.
use yuzuos.Base.{
  ℕ, zero, suc, ◌+◌, ◌-◌, ◌*◌, ◌/◌, ◌^◌, ◌≤◌, ◌<◌, ◌≡◌, refl, ◌∙◌, ap, arith, true, false, some,
  ltb, if◌then◌else◌, [], min,
}
use native.Mathlib.Nat.{mul_comm}
use yuzuos.Bitmap.{u32}
use yuzuos.Ext2.{
  Reader, bytes, read_block, read_words, read_round, read_loop, read, bread_n_rec, word_at,
}
use yuzuos.Ext2.Read.{quotient_at, reader_at}

-- The loop over block numbers is left once the read is done.
read_words_done :
    (disk : ℕ → ℕ → ℕ) (size : ℕ) (next : ℕ → Reader → Reader) (left i block end_pos : ℕ)
    (r : Reader)
    → end_pos ≤ r.target_pos
    → read_words disk size next left i block end_pos r ≡ r
unfolding read_words
read_words_done disk size next zero i block end_pos r done = refl
read_words_done disk size next (suc left) i block end_pos r done =
    let stop : ltb r.target_pos end_pos ≡ false = ground arith in rw stop refl

read_words_once :
    (disk : ℕ → ℕ → ℕ) (size : ℕ) (next : ℕ → Reader → Reader) (left block end_pos : ℕ) (r : Reader)
    → 0 < left
    → r.target_pos < end_pos
    → end_pos ≤ (next (word_at disk block 0) r).target_pos
    → read_words disk size next left 0 block end_pos r ≡ next (word_at disk block 0) r
unfolding read_words
read_words_once disk size next zero block end_pos r some_left more done = absurd (omega arith)
read_words_once disk size next (suc left) block end_pos r some_left more done =
    let goes : ltb r.target_pos end_pos ≡ true = ground arith in
    rw goes
      (read_words_done disk size next left 1 block end_pos (next (word_at disk block 0) r) done)

module _ (disk : ℕ → ℕ → ℕ) (size : ℕ) (b count : ℕ) (high : size * b + size < 2 ^ 32)
    (fits : count ≤ size) where
  -- The block read from its start.
  read_block_first :
      (block : ℕ)
      → read_block disk size block (size * b) count (reader_at (size * b) [])
        ≡ reader_at (size * b + size) (bytes (disk block) 0 count)
  unfolding read_block
  read_block_first block =
      let t = size * b in
      let wrap : u32 (t + size) ≡ t + size = omega arith in
      let same : ltb t t ≡ false = ground arith in
      let stop : (if ltb (t + count) (t + size) then t + size - t - count else 0) ≡ size - count =
        ground arith in
      let n : u32 (size + 2 ^ 33 - 0 - (size - count)) ≡ count = omega arith in
      rw (wrap, same, stop, n) refl

  read_round_first :
      (i_block : ℕ → ℕ) (i_size : ℕ)
      → 4 ≤ size
      → 12 ≤ b
      → b < 268
      → 0 < count
      → read_round disk size i_block i_size (size * b) count (reader_at (size * b) [])
        ≡ reader_at (size * b + size) (bytes (disk (word_at disk (i_block 12) 0)) 0 count)
  unfolding read_round bread_n_rec
  read_round_first i_block i_size whole low below some_count =
      let at : size * b ≡ size * b + 0 = omega arith in
      let block : size * b / size ≡ b =
        ap (λ (t : ℕ). t / size) at ∙ quotient_at size b 0 (omega arith) in
      let c0 : ltb b 12 ≡ false = ground arith in
      let c1 : ltb b 268 ≡ true = ground arith in
      let first = word_at disk (i_block 12) 0 in
      let once = read_block_first first in
      let words : 0 < size / 4 = omega arith in
      let target = ap (λ (q : Reader). q.target_pos) once in
      rw (block, c0, c1)
        (read_words_once disk size (λ w q. read_block disk size w (size * b) count q) (size / 4)
            (i_block 12) (size * b + count) (reader_at (size * b) []) words (omega arith)
            (omega (arith, target))
          ∙ once)

-- From the start of a block that only the first indirect block names, `ext2_fs_read` reads the first
-- block that the indirect block names, whichever of them the position is in.
pub read_indirect_lem :
    (disk : ℕ → ℕ → ℕ) (size : ℕ) (i_block : ℕ → ℕ) (i_size fuel b count : ℕ)
    → 4 ≤ size
    → 12 ≤ b
    → b < 268
    → size * b + size < 2 ^ 32
    → i_size < 2 ^ 32
    → 0 < count
    → count ≤ size
    → size * b + count ≤ i_size
    → read disk size i_block i_size (suc (suc fuel)) (size * b) count
      ≡ some (bytes (disk (word_at disk (i_block 12) 0)) 0 count, size * b + count, count)
unfolding read read_loop
read_indirect_lem disk size i_block i_size fuel b count whole low below high sized some_count fits
      inside =
    let t = size * b in
    let left : u32 (min (u32 (t + count)) i_size + 2 ^ 64 - t) ≡ count = omega arith in
    let at : t ≡ t + 0 = omega arith in
    let block : t / size ≡ b = ap (λ (x : ℕ). x / size) at ∙ quotient_at size b 0 (omega arith) in
    let turned = mul_comm b size in
    let start : u32 (b * size) ≡ t = omega (arith, turned) in
    let goes : ltb t (t + count) ≡ true = ground arith in
    let stops : ltb (t + size) (t + count) ≡ false = ground arith in
    let step =
      read_round_first disk size b count high fits i_block i_size whole low below some_count in
    rw (left, block, start, goes, step, stops) refl
