-- ===== src/Base/Memory.antt =====
-- Memory as a function of the address, and a write to one address.
use Prim.Native.Nat.{ℕ}
use yuzuos.Base.Tests.{◌==◌, if◌then◌else◌}

abbrev pub update {ℓ} : {A : Type ℓ} → (ℕ → A) → ℕ → A → ℕ → A
update f k v = λ x. if x == k then v else f x
