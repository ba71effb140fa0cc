-- ===== src/Stdio/Whole.antt =====
-- What `vsnprintf` leaves in memory and returns.
use yuzuos.Base.{
  ℕ, ◌+◌, ◌-◌, ◌^◌, ◌<◌, ◌≡◌, refl, sym, ◌∙◌, ap, arith, false, ◌&&◌, ◌||◌, List, [], length, ltb,
  leb, ltb→lt, leb→le, ◌==◌, if◌then◌else◌, Bool-cases, inl, inr, min,
}
use mathlib.Core.Path.{subst}
use yuzuos.Bitmap.{u32}
use yuzuos.Stdio.{Out}
use yuzuos.Stdio.Emit.{emit, char_at, at-emit, emit-on, emit-off, emit-behind}
use yuzuos.Stdio.Format.{State}
use yuzuos.Stdio.Run.{
  Result, finished, overrun, out_of_fuel, format_loop, terminate, Printed, printed, left_format,
  starved, vsnprintf, end_of, size_of,
}
use yuzuos.Stdio.Loop.{Verdict, ends, leaves, starves, is_starved, IsResult, loop-IsVerdict}

-- Memory with the text `t` in a buffer of `size` bytes at `str`: as much of it as fits, and a zero
-- behind it.
abbrev pub shown : (str size : ℕ) → List ℕ → (ℕ → ℕ) → ℕ → ℕ
shown str size t memory p =
    let n = min (length t) size in
    if leb str p && ltb p (str + n)
    then char_at t (p - str)
    else if (p == str + n) && ltb 0 size
    then 0
    else memory p

emit-shown :
    (str size : ℕ) (t : List ℕ) (memory : ℕ → ℕ) (p : ℕ)
    → (emit (str + size) t (record { at = str; memory = memory })).memory p
      ≡ (if leb str p && ltb p (str + min (length t) size) then char_at t (p - str) else memory p)
emit-shown str size t memory p =
    let o : Out = record { at = str; memory = memory } in
    elim (Bool-cases (leb str p && ltb p (str + min (length t) size))) [
      | inl within ↦
          let at : str + (p - str) ≡ p = ground arith in
          rw within (
            ap (emit (str + size) t o).memory (sym at)
            ∙ emit-on (str + size) t o (p - str) (ground arith) (ground arith))
      | inr out ↦ rw out (elim (Bool-cases (ltb p str)) [
        | inl before ↦ emit-off (str + size) t o p (inl (ltb→lt p str before))
        | inr behind ↦ elim (Bool-cases (leb (str + size) p)) [
          | inl far ↦ emit-off (str + size) t o p (inr (leb→le (str + size) p far))
          | inr near ↦ emit-behind (str + size) t o p (ground arith)
        ]
      ])
    ]

memory-terminate :
    (e size : ℕ) (o : Out) (p : ℕ)
    → (terminate e size o).memory p
      ≡ (if (p == min o.at e) && (ltb o.at e || ltb 0 size) then 0 else o.memory p)
unfolding terminate
memory-terminate e size o p = elim (Bool-cases (ltb o.at e)) [
  | inl inside ↦ rw inside (ground arith)
  | inr full ↦ rw full (elim (Bool-cases (ltb 0 size)) [
    | inl sized ↦ rw sized (ground arith)
    | inr empty ↦ rw empty (ground arith)
  ])
]

zero_or :
    (str size n p c d : ℕ)
    → (if (p == min (str + n) (str + size)) && (ltb (str + n) (str + size) || ltb 0 size)
        then 0
        else (if leb str p && ltb p (str + min n size) then c else d))
      ≡ (if leb str p && ltb p (str + min n size)
          then c
          else if (p == str + min n size) && ltb 0 size
          then 0
          else d)
zero_or str size n p c d = ground arith

terminate-shown :
    (str size : ℕ) (t : List ℕ) (memory : ℕ → ℕ) (p : ℕ)
    → (terminate
          (str + size)
          size
          (emit (str + size) t (record { at = str; memory = memory }))).memory
        p
      ≡ shown str size t memory p
terminate-shown str size t memory p =
    let o = emit (str + size) t (record { at = str; memory = memory }) in
    let end_at = at-emit (str + size) t (record { at = str; memory = memory }) in
    memory-terminate (str + size) size o p
    ∙ rw (end_at, emit-shown str size t memory p)
        (zero_or str size (length t) p (char_at t (p - str)) (memory p))

-- What a run of `vsnprintf` is by the verdict on its format.
abbrev pub IsPrinted : (str size : ℕ) → (ℕ → ℕ) → Verdict → Printed → Type 0
IsPrinted str size memory (ends t) r =
    (m : ℕ → ℕ) × (stores : List (ℕ × ℕ)) × (r ≡ printed m stores (length t))
    × ((p : ℕ) → m p ≡ shown str size t memory p)
IsPrinted str size memory leaves r = r ≡ left_format
IsPrinted str size memory starves r = r ≡ starved

module _ (words : ℕ → ℕ) (texts : ℕ → List ℕ) (fuel : ℕ) (format : List ℕ) where
  abbrev out_at : ℕ → (ℕ → ℕ) → Out
  out_at str memory = record { at = str; memory = memory }

  abbrev state_at : ℕ → (ℕ → ℕ) → State
  state_at str memory = record { out = out_at str memory; ap = 0; stores = [] }

  abbrev looped : (str size : ℕ) → (ℕ → ℕ) → Result
  looped str size memory =
      format_loop words texts str (str + size) fuel format (state_at str memory)

  abbrev given : (str e size : ℕ) → Result → Printed
  given str e size r = elim r [
    | finished st ↦ printed (terminate e size st.out).memory st.stores (st.out.at - str)
    | overrun st ↦ left_format
    | out_of_fuel ↦ starved
  ]

  vsnprintf_eq :
      (str size : ℕ) (memory : ℕ → ℕ)
      → size < 2 ^ 31
      → str + size < 2 ^ 32
      → vsnprintf words texts fuel str size format memory
        ≡ given str (str + size) size (looped str size memory)
  unfolding vsnprintf
  vsnprintf_eq str size memory small room =
      let wrap : u32 (str + size) ≡ str + size = omega arith in
      let up : ltb (str + size) str ≡ false = ground arith in
      let stays : ltb (u32 (str + size)) str ≡ false = rw wrap up in
      let e : end_of str size ≡ str + size = rw stays wrap in
      let s : size_of str size ≡ size = rw stays refl in
      let fits : leb (2 ^ 31) size ≡ false = ground arith in
      let with_end = λ (x y : ℕ).
        given str x y (format_loop words texts str x fuel format (state_at str memory)) in
      rw fits refl ∙ ap (λ (x : ℕ). with_end x (size_of str size)) e ∙ ap (with_end (str + size)) s

  run_of :
      (str size : ℕ) (memory : ℕ → ℕ) (v : Verdict)
      → IsResult (str + size) (out_at str memory) v (looped str size memory)
      → IsPrinted str size memory v (given str (str + size) size (looped str size memory))
  run_of str size memory (ends t) (st, same, out) = (
    (terminate (str + size) size st.out).memory,
    st.stores,
    ap (given str (str + size) size) same
        ∙ ap (printed (terminate (str + size) size st.out).memory st.stores)
            (omega (arith, ap (λ (o : Out). o.at) out, at-emit (str + size) t (out_at str memory))),
    λ p.
        ap (λ (o : Out). (terminate (str + size) size o).memory p) out
        ∙ terminate-shown str size t memory p,
  )
  run_of str size memory leaves (st, same) = ap (given str (str + size) size) same
  run_of str size memory starves same = ap (given str (str + size) size) same

  of_verdict :
      (v : Verdict)
      → ((str e : ℕ) (st : State)
          → st.ap ≡ 0
          → IsResult e st.out v (format_loop words texts str e fuel format st))
      → (str size : ℕ) (memory : ℕ → ℕ) → size < 2 ^ 31
      → str + size < 2 ^ 32
      → IsPrinted str size memory v (vsnprintf words texts fuel str size format memory)
  of_verdict v run str size memory small room =
      subst (IsPrinted str size memory v) (sym (vsnprintf_eq str size memory small room))
        (run_of str size memory v (run str (str + size) (state_at str memory) refl))

  -- With fuel above the length of the format, `vsnprintf` does the same in any two buffers of less
  -- than 2 GiB that end within the address space: either both runs step over the end of the format,
  -- or there is one text whose length both return, whatever the sizes are, and each run changes
  -- memory in the bytes of its buffer that the text reaches and in the zero behind them, which is
  -- the byte just after the buffer where the text fills it.
  pub vsnprintf-IsPrinted :
      (str1 size1 str2 size2 : ℕ) (memory1 memory2 : ℕ → ℕ)
      → length format < fuel
      → size1 < 2 ^ 31
      → str1 + size1 < 2 ^ 32
      → size2 < 2 ^ 31
      → str2 + size2 < 2 ^ 32
      → (v : Verdict) × (is_starved v ≡ false)
        × IsPrinted str1 size1 memory1 v (vsnprintf words texts fuel str1 size1 format memory1)
        × IsPrinted str2 size2 memory2 v (vsnprintf words texts fuel str2 size2 format memory2)
  vsnprintf-IsPrinted str1 size1 str2 size2 memory1 memory2 enough small1 room1 small2 room2 =
      let l = loop-IsVerdict words texts fuel format 0 in
      let v = l.0 in
      let run = l.2 in
      (
        v,
        l.1 enough,
        of_verdict v run str1 size1 memory1 small1 room1,
        of_verdict v run str2 size2 memory2 small2 room2,
      )
