-- ===== src/Mm/Vmm/Pages.antt =====
-- A range of addresses as the list of the pages, of any of the sizes, that `vmm_map` or `vmm_unmap`
-- hands to the target one by one.
use sysx.Base.{ℕ, ◌+◌, ◌%◌, ◌≤◌, ◌≡◌, List, [], ◌∷◌, arith}
use sysx.Mm.Vmm.{Target, pgsz}

-- A page of the size with index `i`, from the physical address `pa` to the virtual one.
pub record Page : Type 0 where
  pub pa : ℕ
  pub va : ℕ
  pub i : ℕ

-- The pages lie one behind the other, from `va` exactly to `va_end` and from `pa` on, each aligned to
-- its own size on both sides, of sizes up to `max`.
unfoldable pub Tiles : ℕ → ℕ → ℕ → ℕ → List Page → Type 0
Tiles max pa va va_end [] = va ≡ va_end
Tiles max pa va va_end (g ∷ gs) =
    (g.pa ≡ pa)
    × (g.va ≡ va)
    × (g.i ≤ max)
    × (pa % pgsz g.i ≡ 0)
    × (va % pgsz g.i ≡ 0)
    × Tiles max (pa + pgsz g.i) (va + pgsz g.i) va_end gs

pub Tiles-le :
    (least max pa va va_end : ℕ) (gs : List Page)
    → least ≤ max
    → Tiles least pa va va_end gs
    → Tiles max pa va va_end gs
unfolding Tiles
Tiles-le least max pa va va_end [] le tiles = tiles
Tiles-le least max pa va va_end (g ∷ gs) le (p, v, small, p_on, v_on, rest) = (
  p,
  v,
  omega arith,
  p_on,
  v_on,
  Tiles-le least max (pa + pgsz g.i) (va + pgsz g.i) va_end gs le rest,
)

-- The same for the virtual addresses alone.
unfoldable pub Covers : ℕ → ℕ → List Page → Type 0
Covers va va_end [] = va ≡ va_end
Covers va va_end (g ∷ gs) =
    (g.va ≡ va) × (g.i ≤ 1) × (va % pgsz g.i ≡ 0) × Covers (va + pgsz g.i) va_end gs

module _ {S : Type 0} (t : Target S) (vmm : ℕ) where
  -- The target maps the pages, from the first to the last.
  unfoldable pub map_all : ℕ → List Page → S → S
  map_all flags [] s = s
  map_all flags (g ∷ gs) s = map_all flags gs (t.pgmap vmm g.pa g.va g.i flags s)

  unfoldable pub unmap_all : List Page → S → S
  unmap_all [] s = s
  unmap_all (g ∷ gs) s = unmap_all gs (t.pgunmap vmm g.va g.i s)
