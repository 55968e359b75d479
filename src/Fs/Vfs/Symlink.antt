-- ===== src/Fs/Vfs/Symlink.antt =====
-- `vfs_traverse_symlink`: where it ends, and where it does not.
use sysx.Base.{
  ℕ, zero, suc, ◌<◌, ◌≡◌, ◌≢◌, ◌↔◌, ◌⊎◌, inl, inr, refl, true, false, ◌&&◌, none, some, ==_iff,
  Bool-cases, ◌==◌, ◌!=◌, arith,
}
use sysx.Fs.Vfs.{Node, is_symlink, traverse_symlink}

module _ {S : Type 0} (nodes : ℕ → Node S) where
  -- `n` links lead from `a` to `b`, which is null, no link, or a link to itself.
  abbrev pub LinksTo : ℕ → ℕ → ℕ → Type 0
  LinksTo zero a b = (a ≡ b) × ((a ≡ 0) ⊎ (is_symlink nodes a ≡ false) ⊎ ((nodes a).target ≡ a))
  LinksTo (suc n) a b =
      (a ≢ 0) × (is_symlink nodes a ≡ true) × ((nodes a).target ≢ a) × LinksTo n (nodes a).target b

  abbrev Resolves : ℕ → ℕ → ℕ → Type 0
  Resolves fuel a b = (n : ℕ) × (n < fuel) × LinksTo n a b

  to_Resolves : (fuel a b : ℕ) → traverse_symlink nodes fuel a ≡ some b → Resolves fuel a b
  unfolding traverse_symlink
  to_Resolves zero a b e = cc
  to_Resolves (suc k) a b e = elim (Bool-cases (a != 0 && is_symlink nodes a)) [
    | inr stop ↦ (0, omega arith, (ground arith, ground arith))
    | inl link ↦ elim (Bool-cases ((nodes a).target == a)) [
      | inl self ↦ (0, omega arith, (ground arith, inr (inr ((==_iff _ _).0 self))))
      | inr other ↦
          let (n, lt, l) = to_Resolves k (nodes a).target b (ground arith) in
          (suc n, omega arith, (ground arith, ground arith, ground arith, l))
    ]
  ]

  from_Resolves :
      (fuel a b n : ℕ) → n < fuel → LinksTo n a b → traverse_symlink nodes fuel a ≡ some b
  unfolding traverse_symlink
  from_Resolves zero a b n lt l = elim lt [ ]
  from_Resolves (suc k) a b zero lt (e, ends) = ground arith
  from_Resolves (suc k) a b (suc n) lt (nz, link, other, l) =
      ground (arith, from_Resolves k (nodes a).target b n (omega arith) l)

  -- `vfs_traverse_symlink` returns `b` within `fuel` rounds exactly if fewer than `fuel` links lead
  -- there, and `b` is null, no link, or a link to itself.
  pub traverse_symlink_iff :
      (fuel a b : ℕ)
      → (traverse_symlink nodes fuel a ≡ some b) ↔ ((n : ℕ) × (n < fuel) × LinksTo n a b)
  traverse_symlink_iff fuel a b =
      (to_Resolves fuel a b, λ (n, lt, l). from_Resolves fuel a b n lt l)

  -- In a set of links that lead into the set, none to itself, `vfs_traverse_symlink` never returns.
  pub traverse_symlink-cycle :
      (P : ℕ → Type 0)
      → ((a : ℕ)
          → P a
          → (a ≢ 0) × (is_symlink nodes a ≡ true) × ((nodes a).target ≢ a) × P (nodes a).target)
      → (fuel a : ℕ) → P a
      → traverse_symlink nodes fuel a ≡ none
  unfolding traverse_symlink
  traverse_symlink-cycle P closed zero a h = refl
  traverse_symlink-cycle P closed (suc k) a h =
      let (nz, link, other, h') = closed a h in
      ground (arith, traverse_symlink-cycle P closed k (nodes a).target h')
