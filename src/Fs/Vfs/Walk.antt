-- ===== src/Fs/Vfs/Walk.antt =====
-- `vfs_traverse_path` takes the elements of its path one after the other.
use sysx.Base.{
  ℕ, zero, suc, ◌+◌, ◌≤◌, ◌<◌, ◌≡◌, ◌∙◌, ap, sym, fun_ext, true, ◌&&◌, ◌||◌, none, some, List, [],
  ◌∷◌, ltb, ◌==◌, if◌then◌else◌, arith, length, take, length-take, get_or, ◌!=◌,
}
use sysx.Helpers.Path.{
  path_traverse, elements, elements-path_traverse, length-path_traverse, len-path_traverse-le,
}
use sysx.Fs.Vfs.{Node, Walked, reached, name_too_long, endless_link, finddir, walk, traverse_path}

module _ {S : Type 0} (nodes : ℕ → Node S) where
  -- The walk along the elements: empty ones and `.` are passed over, and any other is looked up in the
  -- directory that the walk stands at.
  unfoldable pub visit : ℕ → List (List ℕ) → ℕ → S → Walked nodes
  visit links [] node s = reached node s
  visit links (e ∷ es) node s =
      let rest = visit links es in
      if node == 0
      then reached node s
      else if length e == 0 || (length e == 1 && get_or e 0 0 == b'.')
      then rest node s
      else if ltb 255 (length e)
      then name_too_long
      else (elim (finddir nodes links node e s) [
        | none ↦ endless_link
        | some (next, s') ↦ rest next s'
      ])

  -- One round of the loop, over what follows it.
  abbrev round : ℕ → List ℕ → ℕ → ℕ → S → (ℕ → S → Walked nodes) → Walked nodes
  round links path len node s next =
      if node == 0 || length path == 0
      then reached node s
      else if len == 0 || (len == 1 && get_or path 0 0 == b'.')
      then next node s
      else if ltb 255 len
      then name_too_long
      else (elim (finddir nodes links node (take len path) s) [
        | none ↦ endless_link
        | some (n, s') ↦ next n s'
      ])

  round-visit :
      (links len : ℕ) (c : ℕ) (cs : List ℕ) (es : List (List ℕ)) (node : ℕ) (s : S)
      → len ≤ length (c ∷ cs)
      → round links (c ∷ cs) len node s (visit links es)
        ≡ visit links (take len (c ∷ cs) ∷ es) node s
  unfolding visit
  round-visit links zero c cs es node s h = ground arith
  round-visit links (suc len) c cs es node s h = ground (arith, length-take len cs)

  walk-visit :
      (fuel links : ℕ) (path : List ℕ) (node : ℕ) (s : S)
      → length path < fuel
      → walk nodes fuel links path node s ≡ visit links (elements path) node s
  unfolding walk visit
  walk-visit zero links path node s enough = elim enough [ ]
  walk-visit (suc k) links [] node s enough = unfold elements in ground arith
  walk-visit (suc k) links (c ∷ cs) node s enough =
      let (len, rest) = path_traverse (c ∷ cs) in
      let next : walk nodes k links rest ≡ visit links (elements rest) = fun_ext λ n.
        fun_ext λ s'. walk-visit k links rest n s' (omega (arith, length-path_traverse c cs)) in
      ap (round links (c ∷ cs) len node s) next
      ∙ round-visit links len c cs (elements rest) node s (len-path_traverse-le (c ∷ cs))
      ∙ ap (λ es. visit links es node s) (sym (elements-path_traverse c cs))

  -- With its buffer allocated, `vfs_traverse_path` comes to what visiting the elements of the path one
  -- after the other does, from the given node, or for an absolute path from the root: one lookup for
  -- each element that is not empty and not a dot, up to null, an element that does not fit the buffer,
  -- or a link that is followed without end. For any other path without a node it returns null.
  pub traverse_path-visit :
      (links vfs_root start : ℕ) (path : List ℕ) (s : S)
      → traverse_path nodes links vfs_root true start (some path) s ≡ (
          if start == 0 && get_or path 0 0 != b'/'
          then reached 0 s
          else visit links (elements path) (if start == 0 then vfs_root else start) s)
  unfolding traverse_path
  traverse_path-visit links vfs_root start path s = ground (
    arith,
    walk-visit (length path + 1) links path vfs_root s,
    walk-visit (length path + 1) links path start s,
  )
