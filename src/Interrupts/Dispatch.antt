-- ===== src/Interrupts/Dispatch.antt =====
-- kernel/arch/x86/kernel/irq.c: the handlers of a line are called in the order in which they were set.
use yuzuos.Base.{
  ℕ, zero, suc, ◌+◌, ◌-◌, ◌<◌, ◌≤◌, ◌≡◌, refl, sym, ap, ◌∙◌, arith, Bool, true, false, ◌==◌, leb,
  ◌&&◌, length-append, if◌then◌else◌, update, List, [], ◌∷◌, ◌++◌, length, Bool-cases, inl, inr,
  ==_iff,
}
use mathlib.Core.List.{append_assoc, append-nil}
use mathlib.Core.Path.{subst}
use yuzuos.DList.{Ptr}
use yuzuos.Interrupts.{
  irq_depth, slot, set_from, irq_handler_set, called_from, irq_handler, pic_eoi,
}

-- Handlers set one after the other, each with its line.
unfoldable pub set_all : List (ℕ × Ptr) → (ℕ → Ptr) → ℕ → Ptr
set_all [] irq = irq
set_all ((index, handler) ∷ rs) irq = set_all rs (irq_handler_set index handler irq)

-- The handlers of one line, the first `room` of them.
abbrev pub of_line : (room line : ℕ) → List (ℕ × Ptr) → List Ptr
of_line room line [] = []
of_line zero line (r ∷ rs) = []
of_line (suc room) line ((index, handler) ∷ rs) =
    if index == line then handler ∷ of_line room line rs else of_line (suc room) line rs

-- Lines below 16 and handlers other than NULL.
abbrev pub AreProper : List (ℕ × Ptr) → Type 0
AreProper [] = Unit {0}
AreProper ((index, handler) ∷ rs) = (index < 16) × ((handler == 0) ≡ false) × AreProper rs

-- The table with no handler.
abbrev pub no_handlers : ℕ → Ptr
no_handlers n = 0

-- The handlers of a line stand at its first places, and the places behind them are free.
abbrev Holds : (left i line : ℕ) → (ℕ → Ptr) → List Ptr → Type 0
Holds zero i line irq hs = hs ≡ []
Holds (suc left) i line irq [] = (irq (slot i line) ≡ 0) × Holds left (i + 1) line irq []
Holds (suc left) i line irq (h ∷ hs) =
    (irq (slot i line) ≡ h) × ((h == 0) ≡ false) × Holds left (i + 1) line irq hs

-- A write elsewhere leaves the handlers of the line.
Holds-update :
    (left i line : ℕ) (irq : ℕ → Ptr) (hs : List Ptr) (p v : ℕ)
    → ((j : ℕ) → i ≤ j → (slot j line == p) ≡ false)
    → Holds left i line irq hs
    → Holds left i line (update irq p v) hs
Holds-update zero i line irq hs p v off h = h
Holds-update (suc left) i line irq [] p v off h = (
  ground (arith, off i, h.0),
  Holds-update left (i + 1) line irq [] p v (λ j b. off j (omega arith)) h.1,
)
Holds-update (suc left) i line irq (x ∷ hs) p v off h = (
  ground (arith, off i, h.0),
  h.1,
  Holds-update left (i + 1) line irq hs p v (λ j b. off j (omega arith)) h.2,
)

called_from-Holds :
    (left i line : ℕ) (irq : ℕ → Ptr) (hs : List Ptr)
    → Holds left i line irq hs
    → called_from left i line irq ≡ hs
unfolding called_from
called_from-Holds zero i line irq hs h = sym h
called_from-Holds (suc left) i line irq [] h = rw h.0 refl
called_from-Holds (suc left) i line irq (x ∷ hs) h =
    rw (h.0, h.1, called_from-Holds left (i + 1) line irq hs h.2) refl

-- A handler of another line.
set_from-other :
    (left i n k line index : ℕ) (handler : Ptr) (irq : ℕ → Ptr) (hs : List Ptr)
    → line < 16
    → index < 16
    → (index == line) ≡ false
    → Holds n k line irq hs
    → Holds n k line (set_from left i index handler irq) hs
unfolding set_from
set_from-other zero i n k line index handler irq hs small small' other h = h
set_from-other (suc left) i n k line index handler irq hs small small' other h =
    elim (Bool-cases (irq (slot i index) == 0)) [
      | inl free ↦
          rw free
            (Holds-update n k line irq hs (slot i index) handler (λ j b. ground (arith, other)) h)
      | inr taken ↦
          rw taken (set_from-other left (i + 1) n k line index handler irq hs small small' other h)
    ]

-- The handlers once one more has been set, where there is room.
abbrev with_one : (room : ℕ) → List Ptr → Ptr → List Ptr
with_one zero hs handler = hs
with_one (suc room) hs handler = hs ++ handler ∷ []

set_from-before :
    (left i index k : ℕ) (handler : Ptr) (irq : ℕ → Ptr)
    → k < i
    → set_from left i index handler irq (slot k index) ≡ irq (slot k index)
unfolding set_from
set_from-before zero i index k handler irq before = refl
set_from-before (suc left) i index k handler irq before =
    ground (arith, set_from-before left (i + 1) index k handler irq)

-- A handler of the line behind those that are there.
set_from-same :
    (left i line room : ℕ) (handler : Ptr) (irq : ℕ → Ptr) (hs : List Ptr)
    → (handler == 0) ≡ false
    → length hs + room ≡ left
    → Holds left i line irq hs
    → Holds left i line (set_from left i line handler irq) (with_one room hs handler)
unfolding set_from
set_from-same zero i line zero handler irq hs there e h = h
set_from-same zero i line (suc room) handler irq hs there e h = absurd (omega arith)
set_from-same (suc left) i line zero handler irq [] there e h = absurd (omega arith)
set_from-same (suc left) i line (suc room) handler irq [] there e h =
    let free : (irq (slot i line) == 0) ≡ true = rw h.0 refl in
    rw free (
      ground arith,
      there,
      Holds-update left (i + 1) line irq [] (slot i line) handler (λ j b. ground arith) h.1,
    )
set_from-same (suc left) i line zero handler irq (x ∷ hs) there e h =
    let taken : (irq (slot i line) == 0) ≡ false = rw h.0 h.1 in
    rw taken (
      set_from-before left (i + 1) line i handler irq (omega arith) ∙ h.0,
      h.1,
      set_from-same left (i + 1) line zero handler irq hs there (omega arith) h.2,
    )
set_from-same (suc left) i line (suc room) handler irq (x ∷ hs) there e h =
    let taken : (irq (slot i line) == 0) ≡ false = rw h.0 h.1 in
    rw taken (
      set_from-before left (i + 1) line i handler irq (omega arith) ∙ h.0,
      h.1,
      set_from-same left (i + 1) line (suc room) handler irq hs there (omega arith) h.2,
    )

of_line_full : (line : ℕ) (rs : List (ℕ × Ptr)) → of_line zero line rs ≡ []
of_line_full line [] = refl
of_line_full line (r ∷ rs) = refl

-- One more handler, of any line.
set-Holds :
    (line room index : ℕ) (handler : Ptr) (irq : ℕ → Ptr) (hs : List Ptr)
    → line < 16
    → index < 16
    → (handler == 0) ≡ false
    → length hs + room ≡ irq_depth
    → Holds irq_depth 0 line irq hs
    → Holds irq_depth 0 line
        (irq_handler_set index handler irq)
        (if index == line then with_one room hs handler else hs)
unfolding irq_handler_set
set-Holds line room index handler irq hs small small' there e h =
    elim (Bool-cases (index == line)) [
      | inl here ↦
          let at : index ≡ line = (==_iff index line).0 here in
          rw here (
            subst
              (λ (k : ℕ).
                Holds irq_depth 0 line (set_from irq_depth 0 k handler irq)
                  (with_one room hs handler))
              (sym at) (set_from-same irq_depth 0 line room handler irq hs there e h))
      | inr other ↦
          rw other
            (set_from-other irq_depth 0 irq_depth 0 line index handler irq hs small small' other h)
    ]

same_either : (b : Bool) (hs : List Ptr) → (if b then hs else hs) ≡ hs
same_either true hs = refl
same_either false hs = refl

set_all-Holds :
    (line room : ℕ) (rs : List (ℕ × Ptr)) (irq : ℕ → Ptr) (hs : List Ptr)
    → line < 16
    → AreProper rs
    → length hs + room ≡ irq_depth
    → Holds irq_depth 0 line irq hs
    → Holds irq_depth 0 line (set_all rs irq) (hs ++ of_line room line rs)
unfolding set_all
set_all-Holds line room [] irq hs small proper e h = rw (append-nil hs) h
set_all-Holds line zero ((index, handler) ∷ rs) irq hs small proper e h =
    rw (← of_line_full line rs) (
      set_all-Holds line zero rs (irq_handler_set index handler irq) hs small proper.2 e (
        subst (λ (l : List Ptr). Holds irq_depth 0 line (irq_handler_set index handler irq) l)
          (same_either (index == line) hs)
          (set-Holds line zero index handler irq hs small proper.0 proper.1 e h)))
set_all-Holds line (suc room) ((index, handler) ∷ rs) irq hs small proper e h =
    let h1 = set-Holds line (suc room) index handler irq hs small proper.0 proper.1 e h in
    let irq1 = irq_handler_set index handler irq in
    elim (Bool-cases (index == line)) [
      | inl here ↦
          let longer : length (hs ++ handler ∷ []) + room ≡ irq_depth =
            omega (arith, length-append hs (handler ∷ [])) in
          rw (here, ← append_assoc hs (handler ∷ []) (of_line room line rs))
            (set_all-Holds line room rs irq1 (hs ++ handler ∷ []) small proper.2 longer
              (rw here at h1))
      | inr other ↦
          rw other (set_all-Holds line (suc room) rs irq1 hs small proper.2 e (rw other at h1))
    ]

-- The handlers that `irq_handler` calls for the interrupt of a line are those that
-- `irq_handler_set` has been given for this line since the table was empty, in that order, and the
-- first four of them; the end of the interrupt is told to the controllers once, behind them.
pub irq_handler_lem :
    (line : ℕ) (rs : List (ℕ × Ptr))
    → line < 16
    → AreProper rs
    → irq_handler (32 + line) (set_all rs no_handlers) ≡ (of_line irq_depth line rs, pic_eoi line)
unfolding irq_handler
irq_handler_lem line rs small proper =
    let within : (leb (32 + line) 47 && leb 32 (32 + line)) ≡ true = ground arith in
    let back : 32 + line - 32 ≡ line = omega arith in
    let empty : Holds irq_depth 0 line no_handlers [] = (refl, (refl, (refl, (refl, refl)))) in
    let held = set_all-Holds line irq_depth rs no_handlers [] small proper (omega arith) empty in
    rw (within, back)
      (ap (λ (l : List Ptr). (l, pic_eoi line))
        (called_from-Holds irq_depth 0 line (set_all rs no_handlers) (of_line irq_depth line rs)
          held))
