-- ===== src/Descriptors/Vectors.antt =====
-- kernel/arch/x86/boot/idt.c: where the vectors lead after idt_init.
use yuzuos.Base.{
  ℕ, ◌-◌, ◌/◌, ◌%◌, ◌^◌, ◌<◌, ◌≡◌, refl, ap, ◌∙◌, arith, Bool, true, false, ◌&&◌, Option, none,
  some, ◌==◌, ltb, if◌then◌else◌, List, [], ◌∷◌, Bool-cases, ==_iff, inl, inr,
}
use yuzuos.Base.Range.{all_below, all_below-true}
use yuzuos.Descriptors.{IdtEntry, Gate, Call, calls, run_calls, idt_entry_add, idt_init}

-- The entry that leads to an address.
abbrev pub entry_to : (base flags : ℕ) → IdtEntry
entry_to base flags = record {
  base_low = base % 2 ^ 16;
  base_high = base / 2 ^ 16 % 2 ^ 16;
  selector = 0x08;
  flags = flags;
  zero_byte = 0;
}

-- The last call for a vector decides.
abbrev last_call : (v : ℕ) → List Call → Option Call → Option Call
last_call v [] found = found
last_call v (c ∷ cs) found = last_call v cs (if v == c.index then some c else found)

abbrev entry_or : (Gate → ℕ) → IdtEntry → Option Call → IdtEntry
entry_or addr old none = old
entry_or addr old (some c) = entry_to (addr c.gate) c.flags

set_one :
    (addr : Gate → ℕ) (v : ℕ) (c : Call) (idt : ℕ → IdtEntry) (old : IdtEntry) (found : Option Call)
    → idt v ≡ entry_or addr old found
    → idt_entry_add c.index (addr c.gate) 0x08 c.flags idt v
      ≡ entry_or addr old (if v == c.index then some c else found)
unfolding idt_entry_add
set_one addr v c idt old found e = elim (Bool-cases (v == c.index)) [
  | inl here ↦ rw here refl
  | inr other ↦ rw other e
]

run_calls-last :
    (addr : Gate → ℕ) (v : ℕ) (cs : List Call) (idt : ℕ → IdtEntry) (old : IdtEntry)
    (found : Option Call)
    → idt v ≡ entry_or addr old found
    → run_calls addr cs idt v ≡ entry_or addr old (last_call v cs found)
unfolding run_calls
run_calls-last addr v [] idt old found e = e
run_calls-last addr v (c ∷ cs) idt old found e =
    run_calls-last addr v cs (idt_entry_add c.index (addr c.gate) 0x08 c.flags idt) old
      (if v == c.index then some c else found) (set_one addr v c idt old found e)

-- The function and the flags that a vector is given, `none` for a vector that stays as it was.
unfoldable pub gate_of : ℕ → Option (Gate × ℕ)
gate_of v =
    if v == 21
    then some (Gate.isr 22, 0x8e)
    else if v == 22
    then none
    else if ltb v 32
    then some (Gate.isr v, 0x8e)
    else if ltb v 48
    then some (Gate.irq (v - 32), 0x8e)
    else if v == 127
    then some (Gate.isr 127, 0xee)
    else none

abbrev same_gate : Gate → Gate → Bool
same_gate (Gate.isr m) (Gate.isr n) = m == n
same_gate (Gate.isr m) (Gate.irq n) = false
same_gate (Gate.irq m) (Gate.isr n) = false
same_gate (Gate.irq m) (Gate.irq n) = m == n

abbrev same_call : Option Call → Option (Gate × ℕ) → Bool
same_call none none = true
same_call none (some g) = false
same_call (some c) none = false
same_call (some c) (some (g, flags)) = same_gate c.gate g && (c.flags == flags)

-- The entry of a vector after `idt_init`.
abbrev pub entry_at : (Gate → ℕ) → IdtEntry → Option (Gate × ℕ) → IdtEntry
entry_at addr old none = old
entry_at addr old (some (g, flags)) = entry_to (addr g) flags

same_gate-eq : (g h : Gate) → same_gate g h ≡ true → g ≡ h
same_gate-eq (Gate.isr m) (Gate.isr n) e = ap Gate.isr ((==_iff m n).0 e)
same_gate-eq (Gate.isr m) (Gate.irq n) e = cc
same_gate-eq (Gate.irq m) (Gate.isr n) e = cc
same_gate-eq (Gate.irq m) (Gate.irq n) e = ap Gate.irq ((==_iff m n).0 e)

same_call-entry :
    (addr : Gate → ℕ) (old : IdtEntry) (o : Option Call) (g : Option (Gate × ℕ))
    → same_call o g ≡ true
    → entry_or addr old o ≡ entry_at addr old g
same_call-entry addr old none none e = refl
same_call-entry addr old none (some g) e = cc
same_call-entry addr old (some c) none e = cc
same_call-entry addr old (some c) (some (g, flags)) e =
    let parts : (same_gate c.gate g ≡ true) × ((c.flags == flags) ≡ true) = ground arith in
    ap (λ (h : Gate). entry_to (addr h) c.flags) (same_gate-eq c.gate g parts.0)
    ∙ ap (λ (f : ℕ). entry_to (addr g) f) ((==_iff c.flags flags).0 parts.1)

vectors : all_below 256 (λ v. same_call (last_call v calls none) (gate_of v)) ≡ true
unfolding all_below gate_of
vectors = refl

-- After `idt_init` the vectors 0 to 31 but 21 and 22 lead to the `isr` of their number, 32 to 47 to
-- the `irq` of their line, and 127 to `isr127`, open to programs; the vector 21 leads to `isr22`, and
-- 22 and all others are as they were.
pub idt_init_lem :
    (addr : Gate → ℕ) (idt : ℕ → IdtEntry) (v : ℕ)
    → v < 256
    → idt_init addr idt v ≡ entry_at addr (idt v) (gate_of v)
unfolding idt_init
idt_init_lem addr idt v small =
    run_calls-last addr v calls idt (idt v) none refl
    ∙ same_call-entry addr (idt v) (last_call v calls none) (gate_of v)
        (all_below-true 256 (λ w. same_call (last_call w calls none) (gate_of w)) v vectors small)
