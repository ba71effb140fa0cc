-- ===== src/Stdio/Cut.antt =====
-- A format that ends with its directive still open.
use yuzuos.Base.{
  ℕ, zero, suc, ◌+◌, ◌^◌, ◌<◌, ◌≡◌, refl, ◌∙◌, arith, false, List, [], ◌∷◌, ◌++◌, length, ◌==◌,
  some, leb,
}
use yuzuos.Stdio.Format.{State}
use yuzuos.Stdio.Run.{overrun, step, directive, format_loop, left_format, vsnprintf, end_of}
use yuzuos.Stdio.Loop.{loop_step}

-- No character opens a directive.
abbrev pub IsPlain : List ℕ → Type 0
IsPlain [] = Unit {0}
IsPlain (c ∷ cs) = ((c == b'%') ≡ false) × IsPlain cs

module _ (words : ℕ → ℕ) (texts : ℕ → List ℕ) where
  format_loop-cut :
      (fuel str e : ℕ) (s : List ℕ) (st : State)
      → IsPlain s
      → length s + 1 < fuel
      → (st' : State) × (format_loop words texts str e fuel (s ++ b'%' ∷ []) st ≡ overrun st')
  unfolding format_loop step directive
  format_loop-cut zero str e s st plain enough = absurd (omega arith)
  format_loop-cut (suc fuel) str e [] st plain enough = (_, refl)
  format_loop-cut (suc fuel) str e (c ∷ cs) st (no_sign, plain) enough =
      let st1 = (step words texts str e c (cs ++ b'%' ∷ []) st).0 in
      let rest = format_loop-cut fuel str e cs st1 plain (omega arith) in
      (
        rest.0,
        loop_step words texts fuel str e c (cs ++ b'%' ∷ []) (some (cs ++ b'%' ∷ [])) st
              (rw no_sign refl)
            ∙ rest.1,
      )

  -- Where the format is plain characters with a `%` behind them, `vsnprintf` steps over the closing
  -- zero of the format and reads on behind it, in every buffer of less than 2 GiB.
  pub vsnprintf-cut :
      (fuel str size : ℕ) (s : List ℕ) (memory : ℕ → ℕ)
      → IsPlain s
      → length s + 1 < fuel
      → size < 2 ^ 31
      → vsnprintf words texts fuel str size (s ++ b'%' ∷ []) memory ≡ left_format
  unfolding vsnprintf
  vsnprintf-cut fuel str size s memory plain enough small =
      let fits : leb (2 ^ 31) size ≡ false = ground arith in
      let run =
        format_loop-cut fuel str (end_of str size) s
          (record { out = record { at = str; memory = memory }; ap = 0; stores = [] }) plain
          enough in
      rw (fits, run.1) refl
