-- ===== src/Base/Memory.antt =====
-- Byte memory: an address to what it holds.
use sysx.Base.Tests.{◌==◌, if◌then◌else◌}
use Prim.Native.Nat.{ℕ}

abbrev pub Memory : Type 0
Memory = ℕ → ℕ

-- One cell of a store is replaced.
abbrev pub update {ℓ} : {A : Type ℓ} → (ℕ → A) → ℕ → A → ℕ → A
update m p v a = if p == a then v else m a
