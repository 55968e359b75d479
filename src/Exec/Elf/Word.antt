-- ===== src/Exec/Elf/Word.antt =====
-- Words in memory, little-endian: what is written is read back.
use sysx.Base.{ℕ, zero, suc, ◌+◌, ◌*◌, ◌/◌, ◌%◌, ◌<◌, ◌≤◌, ◌≡◌, refl, ◌∙◌, ◌⊎◌, inl, inr, arith}
use sysx.Base.Memory.{Memory, update}

-- `n` bytes from `a` on as a number.
unfoldable pub load : ℕ → Memory → ℕ → ℕ
load zero m a = 0
load (suc n) m a = m a + 256 * load n m (a + 1)

unfoldable pub store : ℕ → Memory → ℕ → ℕ → Memory
store zero m a w = m
store (suc n) m a w = store n (update m a (w % 256)) (a + 1) (w / 256)

-- The low `n` bytes of a number.
abbrev pub low_bytes : ℕ → ℕ → ℕ
low_bytes zero w = 0
low_bytes (suc n) w = w % 256 + 256 * low_bytes n (w / 256)

pub store_other : (n : ℕ) (m : Memory) (a w b : ℕ) → (b < a) ⊎ (a + n ≤ b) → store n m a w b ≡ m b
unfolding store
store_other zero m a w b out = refl
store_other (suc n) m a w b (inl below) =
    store_other n (update m a (w % 256)) (a + 1) (w / 256) b (inl (omega arith)) ∙ ground arith
store_other (suc n) m a w b (inr above) =
    store_other n (update m a (w % 256)) (a + 1) (w / 256) b (inr (omega arith)) ∙ ground arith

pub load-store : (n : ℕ) (m : Memory) (a w : ℕ) → load n (store n m a w) a ≡ low_bytes n w
unfolding load store
load-store zero m a w = refl
load-store (suc n) m a w =
    let first = store_other n (update m a (w % 256)) (a + 1) (w / 256) a (inl (omega arith)) in
    let rest = load-store n (update m a (w % 256)) (a + 1) (w / 256) in
    rw (first, rest) (ground arith)

-- A word of 32 bits.
pub load-store_word : (m : Memory) (a w : ℕ) → load 4 (store 4 m a w) a ≡ w % 0x1_0000_0000
load-store_word m a w = load-store 4 m a w ∙ omega arith
