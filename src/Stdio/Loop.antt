-- ===== src/Stdio/Loop.antt =====
-- The loop of `vsnprintf` over a whole format, and what it leaves in memory.
use yuzuos.Base.{
  ℕ, zero, suc, ◌≤◌, ◌<◌, ◌≡◌, refl, sym, ◌∙◌, ap, arith, Bool, true, false, List, [], ◌∷◌, ◌++◌,
  length, ◌==◌, Bool-cases, inl, inr, Option, none, some,
}
use mathlib.Core.Path.{subst}
use yuzuos.Stdio.{Out}
use yuzuos.Stdio.Emit.{emit, emit-append}
use yuzuos.Stdio.Format.{State, head, tail, parse}
use yuzuos.Stdio.Run.{directive, step, Result, finished, overrun, out_of_fuel, format_loop}
use yuzuos.Stdio.Print.{convert-IsConversion}
use yuzuos.Stdio.Shorter.{length-parse, length-tail}

-- How a format ends: with a text, behind its own end, or without enough fuel.
pub data Verdict : Type 0 where
  ends : List ℕ → Verdict
  leaves : Verdict
  starves : Verdict

abbrev pub follow : List ℕ → Verdict → Verdict
follow t (ends u) = ends (t ++ u)
follow t leaves = leaves
follow t starves = starves

abbrev pub IsResult : (e : ℕ) → Out → Verdict → Result → Type 0
IsResult e o (ends t) r = (st : State) × (r ≡ finished st) × (st.out ≡ emit e t o)
IsResult e o leaves r = (st : State) × (r ≡ overrun st)
IsResult e o starves r = r ≡ out_of_fuel

abbrev pub is_starved : Verdict → Bool
is_starved (ends t) = false
is_starved leaves = false
is_starved starves = true

follow_fed : (t : List ℕ) (v : Verdict) → is_starved v ≡ false → is_starved (follow t v) ≡ false
follow_fed t (ends u) h = h
follow_fed t leaves h = h
follow_fed t starves h = h

followed :
    (e : ℕ) (t : List ℕ) (o : Out) (v : Verdict) (r : Result)
    → IsResult e (emit e t o) v r
    → IsResult e o (follow t v) r
followed e t o (ends u) r (st, same, out) = (st, same, out ∙ sym (emit-append e t u o))
followed e t o leaves r h = h
followed e t o starves r h = h

abbrev IsNoLonger : List ℕ → Option (List ℕ) → Type 0
IsNoLonger cs none = Unit {0}
IsNoLonger cs (some rest) = length rest ≤ length cs

module _ (words : ℕ → ℕ) (texts : ℕ → List ℕ) where
  -- What one round prints, the next argument and the rest of the format, for every buffer.
  abbrev IsRound : (c : ℕ) → List ℕ → (ap : ℕ) → Type 0
  IsRound c cs ap =
      (t : List ℕ) × (n : ℕ) × (rest : Option (List ℕ)) × IsNoLonger cs rest
      × ((str e : ℕ) (o : Out) (stores : List (ℕ × ℕ))
          → let r = step words texts str e c cs (record { out = o; ap = ap; stores = stores }) in
            (r.0.out ≡ emit e t o) × (r.0.ap ≡ n) × (r.1 ≡ rest))

  step-IsRound : (c : ℕ) (cs : List ℕ) (ap : ℕ) → IsRound c cs ap
  unfolding step directive emit
  step-IsRound c cs ap = elim (Bool-cases (c == b'%')) [
    | inr plain ↦ (c ∷ [], ap, some cs, omega arith, λ str e o stores. rw plain (refl, refl, refl))
    | inl percent ↦
        let p = parse words ap cs in
        let k = head p.2 in
        let v = convert-IsConversion words texts p.0 k p.1 in
        let shorter = length-parse words ap cs in
        let drop = length-tail p.2 in
        elim (Bool-cases (k == 0)) [
          | inl cut ↦ (
            v.0,
            v.1,
            none,
            tt,
            λ str e o stores.
                rw percent ((v.2 str e o stores).0, (v.2 str e o stores).1, rw cut refl),
          )
          | inr more ↦ (
            v.0,
            v.1,
            some (tail p.2),
            omega arith,
            λ str e o stores.
                rw percent ((v.2 str e o stores).0, (v.2 str e o stores).1, rw more refl),
          )
        ]
  ]

  -- What one round does to any state with that argument next.
  round_of :
      (c : ℕ) (cs : List ℕ) (ap : ℕ) (p : IsRound c cs ap) (str e : ℕ) (st : State)
      → st.ap ≡ ap
      → ((step words texts str e c cs st).0.out ≡ emit e p.0 st.out)
        × ((step words texts str e c cs st).0.ap ≡ p.1)
        × ((step words texts str e c cs st).1 ≡ p.2)
  round_of c cs ap p str e st same =
      subst
        (λ (a : ℕ).
          let r =
            step words texts str e c cs (record { out = st.out; ap = a; stores = st.stores }) in
          (r.0.out ≡ emit e p.0 st.out) × (r.0.ap ≡ p.1) × (r.1 ≡ p.2))
        (sym same) (p.4 str e st.out st.stores)

  pub loop_step :
      (fuel str e c : ℕ) (cs : List ℕ) (rest : Option (List ℕ)) (st : State)
      → (step words texts str e c cs st).1 ≡ rest
      → format_loop words texts str e (suc fuel) (c ∷ cs) st ≡ elim rest as (λ x. Result) [
        | none ↦ overrun (step words texts str e c cs st).0
        | some s ↦ format_loop words texts str e fuel s (step words texts str e c cs st).0
      ]
  unfolding format_loop
  loop_step fuel str e c cs rest st same =
      ap
        (λ (x : Option (List ℕ)). elim x as (λ x. Result) [
          | none ↦ overrun (step words texts str e c cs st).0
          | some s ↦ format_loop words texts str e fuel s (step words texts str e c cs st).0
        ])
        same

  abbrev pub IsVerdict : (fuel : ℕ) → List ℕ → (ap : ℕ) → Type 0
  IsVerdict fuel s ap =
      (v : Verdict) × (length s < fuel → is_starved v ≡ false)
      × ((str e : ℕ) (st : State)
          → st.ap ≡ ap
          → IsResult e st.out v (format_loop words texts str e fuel s st))

  pub loop-IsVerdict : (fuel : ℕ) (s : List ℕ) (ap : ℕ) → IsVerdict fuel s ap
  unfolding format_loop emit
  loop-IsVerdict zero s ap = (starves, λ h. absurd (omega arith), λ str e st same. refl)
  loop-IsVerdict (suc fuel) [] ap = (ends [], λ h. refl, λ str e st same. (st, refl, refl))
  loop-IsVerdict (suc fuel) (c ∷ cs) ap = after c cs ap (step-IsRound c cs ap) (loop-IsVerdict fuel)
    where
      after :
          (c : ℕ) (cs : List ℕ) (ap : ℕ) (p : IsRound c cs ap)
          → ((s : List ℕ) (ap : ℕ) → IsVerdict fuel s ap)
          → IsVerdict (suc fuel) (c ∷ cs) ap
      after c cs ap (t, n, none, short, f) ih = (
        leaves,
        λ h. refl,
        λ str e st same. (
          (step words texts str e c cs st).0,
          loop_step fuel str e c cs none st
              (round_of c cs ap (t, n, none, short, f) str e st same).2,
        ),
      )
      after c cs ap (t, n, some rest, short, f) ih =
          let next = ih rest n in
          (
            follow t next.0,
            λ h. follow_fed t next.0 (next.1 (omega arith)),
            λ str e st same.
                (let r = round_of c cs ap (t, n, some rest, short, f) str e st same in
                  let st' = (step words texts str e c cs st).0 in
                  subst (IsResult e st.out (follow t next.0))
                    (sym (loop_step fuel str e c cs (some rest) st r.2))
                    (followed e t st.out next.0 (format_loop words texts str e fuel rest st') (
                      subst
                        (λ (o : Out).
                          IsResult e o next.0 (format_loop words texts str e fuel rest st'))
                        r.0 (next.2 str e st' r.1)))),
          )
