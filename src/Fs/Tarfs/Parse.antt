-- ===== src/Fs/Tarfs/Parse.antt =====
-- Reading an archive ends.
use sysx.Base.{
  ℕ, zero, suc, ◌+◌, ◌*◌, ◌/◌, ◌%◌, ◌≤◌, ◌<◌, ◌≡◌, refl, true, false, some, List, [], ◌∷◌, ◌++◌,
  arith, leb, ◌==◌, length, take, add_size, word_mod, Bool-cases, Option-cases, inl, inr,
}
use sysx.Helpers.Path.{path_traverse, length-path_traverse}
use sysx.Libc.Stdlib.{strtoull, value_of}
use sysx.Fs.Tarfs.{
  Header, TarNode, root, place, find_child, drop, node_of, full_name, is_empty, stride, parse,
  tar_init,
}

nothing_left : length (path_traverse []).1 ≡ 0
unfolding path_traverse
nothing_left = refl

path_traverse-shrinks :
    (path : List ℕ)
    → (length (path_traverse path).1 == 0) ≡ false
    → length (path_traverse path).1 < length path
path_traverse-shrinks [] h = ground (arith, nothing_left)
path_traverse-shrinks (c ∷ cs) h = omega (arith, length-path_traverse c cs)

place-ends :
    (fuel : ℕ) (ns : List TarNode) (path : List ℕ) (parent : ℕ)
    → length path < fuel
    → (r : List ℕ × ℕ) × (place fuel ns path parent ≡ some r)
unfolding place
place-ends zero ns path parent enough = elim enough [ ]
place-ends (suc fuel) ns path parent enough =
    let (len, rest) = path_traverse path in
    elim (Bool-cases (length rest == 0)) [
      | inl end ↦ ((take len path, parent), rw end)
      | inr more ↦
          let less = path_traverse-shrinks path more in
          elim (Option-cases (find_child (drop 1 ns) 1 parent (take len path))) [
            | inl missing ↦
                let (r, e) = place-ends fuel ns rest parent (omega arith) in
                (r, rw (more, missing) e)
            | inr (i, found) ↦
                let (r, e) = place-ends fuel ns rest i (omega arith) in (r, rw (more, found) e)
          ]
    ]

-- No header reaches round the end of the address space.
abbrev pub Fits : (ℕ → Header) → ℕ → Type 0
Fits headers stop =
    (a : ℕ) → a < stop → a + 1024 + value_of (strtoull 8 (headers a).size) < word_mod

stride_lem :
    (h : Header) (a : ℕ)
    → a + 1024 + value_of (strtoull 8 h.size) < word_mod
    → a + 512 ≤ add_size a (stride h)
stride_lem h a fits =
    let n = value_of (strtoull 8 h.size) in
    let whole : (n % word_mod + 511) % word_mod ≡ n + 511 = omega arith in rw whole (omega arith)

parse-ends :
    (fuel : ℕ) (headers : ℕ → Header) (stop at : ℕ) (ns : List TarNode)
    → Fits headers stop
    → stop ≤ at + 512 * fuel
    → (r : List TarNode) × (parse (suc fuel) headers stop at ns ≡ some r)
unfolding parse
parse-ends zero headers stop at ns fits enough =
    let done : leb stop at ≡ true = ground arith in (ns, rw done)
parse-ends (suc fuel) headers stop at ns fits enough = elim (Bool-cases (leb stop at)) [
  | inl done ↦ (ns, rw done)
  | inr more ↦
      let room = fits at (ground arith) in
      elim (Bool-cases (is_empty (headers at))) [
        | inl empty ↦
            let next : add_size at 512 ≡ at + 512 = omega arith in
            let (r, e) = parse-ends fuel headers stop (add_size at 512) ns fits (omega arith) in
            (r, rw (more, empty) e)
        | inr full ↦
            let (p, placed) =
              place-ends (length (full_name (headers at)) + 1) ns (full_name (headers at)) 0
                (omega arith) in
            let step = stride_lem (headers at) at room in
            let (r, e) =
              parse-ends fuel headers stop (add_size at (stride (headers at)))
                (ns ++ (node_of (headers at) at p ∷ [])) fits (omega arith) in
            (r, rw (more, full, placed) e)
      ]
]

-- `tar_init` ends: if no header of the archive reaches round the end of the address space, it has read
-- the archive after at most a round for every 512 bytes of it and one more.
pub tar_init-ends :
    (headers : ℕ → Header) (buffer size : ℕ)
    → buffer + size < word_mod
    → Fits headers (buffer + size)
    → (r : List TarNode) × (tar_init headers buffer size ≡ some r)
unfolding tar_init
tar_init-ends headers buffer size small fits =
    let stop : add_size buffer size ≡ buffer + size = omega arith in
    let fuel : size / 512 + 2 ≡ suc (size / 512 + 1) = omega arith in
    rw (stop, fuel)
      (parse-ends (size / 512 + 1) headers (buffer + size) buffer (root ∷ []) fits (omega arith))
