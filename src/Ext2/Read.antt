-- ===== src/Ext2/Read.antt =====
-- A read of the part of a file that the first twelve blocks hold.
use yuzuos.Base.{
  ℕ, zero, suc, ◌+◌, ◌-◌, ◌*◌, ◌/◌, ◌%◌, ◌^◌, ◌≤◌, ◌<◌, ◌≡◌, refl, sym, ◌∙◌, ap, arith, true, false,
  Option, some, ltb, leb, if◌then◌else◌, List, [], ◌∷◌, ◌++◌, min, Bool-cases, inl, inr, ltb→lt,
  leb→le,
}
use mathlib.Core.Option
use native.Mathlib.Nat.{
  add-mul-div_left, div-eq_of_lt, mod-eq-sub-mul-div, mul-le-mul_left, mul-suc, div-add-mod',
  mod-lt, mul_comm,
}
use yuzuos.Bitmap.{u32}
use yuzuos.Ext2.{Reader, bytes, read_block, read_round, read_loop, read, bread_n_rec}

bytes-add : (f : ℕ → ℕ) (p a b : ℕ) → bytes f p (a + b) ≡ bytes f p a ++ bytes f (p + a) b
bytes-add f p zero b =
    let here : p + 0 ≡ p = omega arith in let all : 0 + b ≡ b = omega arith in rw (here, all) refl
bytes-add f p (suc a) b =
    let next : suc a + b ≡ suc (a + b) = omega arith in
    let on : p + suc a ≡ p + 1 + a = omega arith in
    rw (next, on) (ap (λ (r : List ℕ). f p ∷ r) (bytes-add f (p + 1) a b))

suc_le : (b : ℕ) → b < 12 → suc b ≤ 12
suc_le b first = omega arith

abbrev pub reader_at : ℕ → List ℕ → Reader
reader_at target buffer = record { target_pos = target; buffer = buffer }

module _ (size b k : ℕ) (within : k < size) where
  pub quotient_at : (size * b + k) / size ≡ b
  quotient_at =
      let flipped : size * b + k ≡ k + size * b = omega arith in
      rw flipped (
        add-mul-div_left k b {y = size} (omega arith)
        ∙ ap (λ (q : ℕ). q + b) (div-eq_of_lt within)
        ∙ omega arith)

  pub rest_at : (size * b + k) % size ≡ k
  rest_at =
      mod-eq-sub-mul-div (size * b + k) size
      ∙ ap (λ (q : ℕ). size * b + k - size * q) quotient_at
      ∙ omega arith

module _ (disk : ℕ → ℕ → ℕ) (size : ℕ) (i_block : ℕ → ℕ) where
  -- The byte of the file at a position, by the block that holds it.
  abbrev pub file_byte : ℕ → ℕ
  file_byte p = disk (i_block (p / size)) (p % size)

  block_bytes :
      (b k n : ℕ) → k + n ≤ size → bytes (disk (i_block b)) k n ≡ bytes file_byte (size * b + k) n
  block_bytes b k zero within = refl
  block_bytes b k (suc n) within =
      let here = quotient_at size b k (omega arith) in
      let there = rest_at size b k (omega arith) in
      let next : size * b + k + 1 ≡ size * b + (k + 1) = omega arith in
      rw (here, there, next)
        (ap (λ (r : List ℕ). disk (i_block b) k ∷ r) (block_bytes b (k + 1) n (omega arith)))

  -- Where the read ends, within the first twelve blocks.
  module _ (ppos n : ℕ) (direct : ppos + n ≤ size * 12) (small : size * 12 < 2 ^ 32) where
    -- What the buffer holds once the position has come to `target`.
    abbrev so_far : ℕ → List ℕ
    so_far target = bytes file_byte ppos (min target (ppos + n) - ppos)

    joined :
        (b c : ℕ)
        → size * b < ppos + n
        → ppos < size * b + size
        → c ≡ size - (ppos - size * b) - (size * b + size - (ppos + n))
        → so_far (size * b) ++ bytes (disk (i_block b)) (ppos - size * b) c
          ≡ so_far (size * b + size)
    joined b c more reaches count =
        let t = size * b in
        let done = min t (ppos + n) - ppos in
        let from_here : t + (ppos - t) ≡ ppos + done = omega arith in
        let total : done + c ≡ min (t + size) (ppos + n) - ppos = omega arith in
        ap (λ (q : List ℕ). so_far t ++ q)
          (block_bytes b (ppos - t) c (omega arith) ∙ ap (λ (p : ℕ). bytes file_byte p c) from_here)
        ∙ sym (bytes-add file_byte ppos done c)
        ∙ ap (bytes file_byte ppos) total

    read_block_lem :
        (b : ℕ) (r : Reader)
        → r.target_pos ≡ size * b
        → r.buffer ≡ so_far (size * b)
        → size * b < ppos + n
        → ppos < size * b + size
        → size * b + size ≤ size * 12
        → read_block disk size (i_block b) ppos n r
          ≡ record { target_pos = size * b + size; buffer = so_far (size * b + size) }
    unfolding read_block
    read_block_lem b r at written more reaches within =
        let t = size * b in
        let wrap : u32 (t + size) ≡ t + size = omega arith in
        let start : (if ltb t ppos then ppos - t else 0) ≡ ppos - t = ground arith in
        let stop : (if ltb (ppos + n) (t + size) then t + size - ppos - n else 0)
            ≡ t + size - (ppos + n) =
          ground arith in
        let count : u32 (size + 2 ^ 33 - (ppos - t) - (t + size - (ppos + n)))
            ≡ size - (ppos - t) - (t + size - (ppos + n)) =
          omega arith in
        rw (at, wrap, start, stop, count, written)
          (ap (reader_at (t + size))
            (joined b (size - (ppos - t) - (t + size - (ppos + n))) more reaches refl))

    block_lt : (b : ℕ) → size * b < size * 12 → b < 12
    block_lt b below = elim (Bool-cases (leb 12 b)) [
      | inl behind ↦
          let above = mul-le-mul_left size (leb→le 12 b behind) in absurd (omega (arith, above))
      | inr first ↦ ground arith
    ]

    round_direct :
        (i_size b : ℕ) (r : Reader)
        → 0 < size
        → r.target_pos ≡ size * b
        → b < 12
        → read_round disk size i_block i_size ppos n r ≡ read_block disk size (i_block b) ppos n r
    unfolding read_round bread_n_rec
    round_direct i_size b r filled at first =
        let block : r.target_pos / size ≡ b =
          ap (λ (t : ℕ). t / size) (at ∙ omega arith) ∙ quotient_at size b 0 filled in
        let direct_one : ltb b 12 ≡ true = ground arith in rw (block, direct_one) refl

    read_loop_lem :
        (i_size fuel b : ℕ) (r : Reader)
        → 0 < size
        → b ≤ 12
        → 12 < b + fuel
        → r.target_pos ≡ size * b
        → r.buffer ≡ so_far (size * b)
        → ppos < size * b + size
        → (q : Reader) × (read_loop disk size i_block i_size fuel ppos n r ≡ some q)
          × (q.buffer ≡ bytes file_byte ppos n)
    unfolding read_loop
    read_loop_lem i_size zero b r filled first enough at written reaches = absurd (omega arith)
    read_loop_lem i_size (suc fuel) b r filled first enough at written reaches =
        let t = size * b in
        elim (Bool-cases (ltb t (ppos + n))) [
          | inr done ↦
              let stops : ltb r.target_pos (ppos + n) ≡ false = rw at done in
              let all : min t (ppos + n) - ppos ≡ n = ground arith in
              (r, rw stops refl, written ∙ ap (bytes file_byte ppos) all)
          | inl more ↦
              let more_lt : size * b < ppos + n = ltb→lt (size * b) (ppos + n) more in
              let goes : ltb r.target_pos (ppos + n) ≡ true = rw at more in
              let first' : b < 12 = block_lt b (omega arith) in
              let on = mul-suc size b in
              let last = mul-le-mul_left size (suc_le b first') in
              let within : size * b + size ≤ size * 12 = omega (arith, on, last) in
              let r1 : Reader = record { target_pos = t + size; buffer = so_far (t + size) } in
              let step =
                round_direct i_size b r filled at first'
                ∙ read_block_lem b r at written more_lt reaches within in
              let rest =
                read_loop_lem i_size fuel (suc b) r1 filled (suc_le b first') (omega arith) (sym on)
                  (ap so_far (sym on)) (omega (arith, on)) in
              rw (goes, step) rest
        ]

block_le : (size b : ℕ) → 0 < size → size * b ≤ size * 12 → b ≤ 12
block_le size b filled below = elim (Bool-cases (leb 13 b)) [
  | inl behind ↦
      let above = mul-le-mul_left size (leb→le 13 b behind) in absurd (omega (arith, above))
  | inr first ↦ ground arith
]

-- A read of a file of less than 4 GiB from a position within it, which ends with the file or before,
-- and within the twelve blocks that the inode names itself, comes to its end in as many rounds, puts
-- just the bytes of the file from that position on into the buffer and returns how many they are.
pub read_lem :
    (disk : ℕ → ℕ → ℕ) (size : ℕ) (i_block : ℕ → ℕ) (i_size fuel ppos count : ℕ)
    → 0 < size
    → size * 12 < 2 ^ 32
    → 12 < fuel
    → i_size < 2 ^ 32
    → ppos + count < 2 ^ 32
    → ppos ≤ i_size
    → min (ppos + count) i_size ≤ size * 12
    → read disk size i_block i_size fuel ppos count
      ≡ some (
        bytes (file_byte disk size i_block) ppos (min (ppos + count) i_size - ppos),
        ppos + (min (ppos + count) i_size - ppos),
        min (ppos + count) i_size - ppos,
      )
unfolding read
read_lem disk size i_block i_size fuel ppos count filled small enough sized fits inside direct =
    let n = min (ppos + count) i_size - ppos in
    let left : u32 (min (u32 (ppos + count)) i_size + 2 ^ 64 - ppos) ≡ n = omega arith in
    let b = ppos / size in
    let whole = div-add-mod' ppos size in
    let rest = mod-lt ppos {m = size} filled in
    let turned = mul_comm size b in
    let start : u32 (ppos / size * size) ≡ size * b = omega (arith, whole, turned) in
    let here : size * b ≤ ppos = omega (arith, whole, turned) in
    let end_in : ppos + n ≤ size * 12 = omega arith in
    let none_yet : 0 ≡ min (size * b) (ppos + n) - ppos = omega arith in
    let loop =
      read_loop_lem disk size i_block ppos n end_in small i_size fuel b (reader_at (size * b) [])
        filled (block_le size b filled (omega arith)) (omega arith) refl
        (ap (bytes (file_byte disk size i_block) ppos) none_yet)
        (omega (arith, whole, turned, rest)) in
    let result : Reader → List ℕ × ℕ × ℕ = λ q. (q.buffer, ppos + n, n) in
    let shown : List ℕ → Option (List ℕ × ℕ × ℕ) = λ q. some (q, ppos + n, n) in
    rw (left, start) (ap (Option.map result) loop.1 ∙ ap shown loop.2)
