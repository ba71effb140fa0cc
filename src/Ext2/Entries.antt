-- ===== src/Ext2/Entries.antt =====
-- A lookup in a directory whose first block holds well-formed entries.
use yuzuos.Base.{
  ℕ, zero, suc, ◌+◌, ◌*◌, ◌^◌, ◌≤◌, ◌<◌, ◌≡◌, refl, ◌∙◌, ap, arith, Bool, true, false, ◌&&◌, Option,
  some, ltb, ◌==◌, if◌then◌else◌, List, [], ◌∷◌, length, Bool-cases, inl, inr, lt→ltb,
}
use mathlib.Core.Option.{bind}
use yuzuos.Base.Int.{ℤ, pos, eqb_ℤ}
use yuzuos.Bitmap.{u32}
use yuzuos.Stdio.Format.{to_int}
use yuzuos.Ext2.{bytes, word_at}
use yuzuos.Ext2.Lookup.{
  strcmp, until_zero, not_found, to_u32, rec_len_at, name_at, ino_find, bread_rec, ino_at, lookup,
}

-- No byte of a text is 0.
abbrev pub IsText : List ℕ → Type 0
IsText [] = Unit {0}
IsText (c ∷ cs) = ((c == 0) ≡ false) × IsText cs

abbrev pub is_same : List ℕ → List ℕ → Bool
is_same [] [] = true
is_same [] (d ∷ ds) = false
is_same (c ∷ cs) [] = false
is_same (c ∷ cs) (d ∷ ds) = (c == d) && is_same cs ds

-- `strcmp` is 0 just for equal texts.
strcmp-is_same :
    (cs ds : List ℕ) → IsText cs → IsText ds → eqb_ℤ (strcmp cs ds) (pos 0) ≡ is_same cs ds
unfolding strcmp
strcmp-is_same [] [] tc td = refl
strcmp-is_same [] (d ∷ ds) tc td = ground (arith, td.0)
strcmp-is_same (c ∷ cs) [] tc td = ground (arith, tc.0)
strcmp-is_same (c ∷ cs) (d ∷ ds) tc td = elim (Bool-cases (c == d)) [
  | inl same ↦ rw same (strcmp-is_same cs ds tc.1 td.1)
  | inr other ↦ rw other (ground arith)
]

pub record Entry : Type 0 where
  pub ino : ℕ
  pub name : List ℕ
  pub rec_len : ℕ

-- The entries stand one behind the other from an offset on, and fill the block.
abbrev pub IsDir : (disk : ℕ → ℕ → ℕ) (blocksize block size : ℕ) → List Entry → Type 0
IsDir disk blocksize block size [] = size ≡ blocksize
IsDir disk blocksize block size (e ∷ es) =
    (size < blocksize)
    × (word_at disk block size ≡ e.ino)
    × (0 < e.ino)
    × (e.ino < 2 ^ 31)
    × (disk block (size + 4) + 2 ^ 8 * disk block (size + 5) ≡ e.rec_len)
    × (until_zero (bytes (disk block) (size + 8) (disk block (size + 6))) ≡ e.name)
    × IsText e.name
    × IsDir disk blocksize block (size + e.rec_len) es

-- The inode of the first entry of that name, or -ENOENT.
abbrev pub entry_of : List ℕ → List Entry → ℤ
entry_of name [] = not_found
entry_of name (e ∷ es) = if is_same e.name name then pos e.ino else entry_of name es

module _ (disk : ℕ → ℕ → ℕ) (blocksize : ℕ) (small : blocksize < 2 ^ 32) where
  within_block :
      (block size : ℕ) (es : List Entry) → IsDir disk blocksize block size es → size ≤ blocksize
  within_block block size [] d = omega (arith, d)
  within_block block size (e ∷ es) d = omega (arith, d.0)

  -- The walk over the entries of a block.
  ino_find_lem :
      (name : List ℕ) (fuel block size : ℕ) (es : List Entry)
      → IsText name
      → IsDir disk blocksize block size es
      → length es < fuel
      → ino_find disk blocksize name fuel block size ≡ some (entry_of name es)
  unfolding ino_find
  ino_find_lem name zero block size es t d enough = absurd (omega arith)
  ino_find_lem name (suc fuel) block size [] t d enough =
      let over : ltb size blocksize ≡ false = ground (arith, d) in rw over refl
  ino_find_lem name (suc fuel) block size (e ∷ es) t
        (more, ino, filled, low, rec_len, named, text, next) enough =
      let goes : ltb size blocksize ≡ true = ground arith in
      let on : u32 (size + rec_len_at disk blocksize name block size) ≡ size + e.rec_len =
        ap (λ (l : ℕ). u32 (size + l)) rec_len
        ∙ omega (arith, within_block block (size + e.rec_len) es next) in
      let compared : eqb_ℤ (strcmp (name_at disk blocksize name block size) name) (pos 0)
          ≡ is_same e.name name =
        ap (λ (n : List ℕ). eqb_ℤ (strcmp n name) (pos 0)) named
        ∙ strcmp-is_same e.name name text t in
      let number : to_int (word_at disk block size) ≡ pos e.ino =
        ap to_int ino
        ∙ (let l : ltb (u32 e.ino) (2 ^ 31) ≡ true = ground arith in
            let s : u32 e.ino ≡ e.ino = omega arith in rw (l, s) refl) in
      let rest = ino_find_lem name fuel block (size + e.rec_len) es t next (omega arith) in
      rw (goes, compared, number)
        (ap (λ (x : Option ℤ). if is_same e.name name then some (pos e.ino) else x)
            (ap (ino_find disk blocksize name fuel block) on ∙ rest)
          ∙ elim (Bool-cases (is_same e.name name)) [
            | inl same ↦ rw same refl
            | inr other ↦ rw other refl
          ])

  some_ino :
      (name : List ℕ) (block size : ℕ) (es : List Entry)
      → IsDir disk blocksize block size es
      → 0 < to_u32 (entry_of name es)
  some_ino name block size [] d = omega arith
  some_ino name block size (e ∷ es) d = elim (Bool-cases (is_same e.name name)) [
    | inl same ↦ let s : u32 e.ino ≡ e.ino = omega (arith, d.3) in rw (same, s) d.2
    | inr other ↦ rw other (some_ino name block (size + e.rec_len) es d.7)
  ]

  -- In a directory whose first block is filled by entries with names and inode numbers of their own,
  -- a lookup comes to its end, given more rounds than there are entries in that block, with the
  -- number of the first entry there that has the name. For a name that is not in the first block it
  -- gives the number 2 ^ 32 - 2, that of -ENOENT, and neither NULL nor an entry of a later block.
  pub lookup_lem :
      (name : List ℕ) (i_block : ℕ → ℕ) (fuel i_blocks : ℕ) (es : List Entry)
      → IsText name
      → 0 < i_blocks
      → (i_block 0 == 0) ≡ false
      → IsDir disk blocksize (i_block 0) 0 es
      → length es < fuel
      → lookup disk blocksize name i_block fuel i_blocks ≡ some (to_u32 (entry_of name es))
  unfolding lookup ino_at bread_rec bind
  lookup_lem name i_block fuel zero es t blocks there d enough = absurd (omega arith)
  lookup_lem name i_block fuel (suc left) es t blocks there d enough =
      let found = ino_find_lem name fuel (i_block 0) 0 es t d enough in
      let more : ltb 0 (to_u32 (entry_of name es)) ≡ true =
        lt→ltb 0 (to_u32 (entry_of name es)) (some_ino name (i_block 0) 0 es d) in
      rw (there, found, more) refl
