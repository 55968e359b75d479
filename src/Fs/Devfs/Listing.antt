-- ===== src/Fs/Devfs/Listing.antt =====
-- The list of devices: adding one, and the removal that does not happen.
use sysx.Base.{
  ℕ, zero, suc, ◌<◌, ◌≡◌, ◌≢◌, ◌⊎◌, inl, inr, ◌∙◌, ap, sym, refl, Bool, true, false, ◌&&◌, some,
  List, [], ◌∷◌, ◌++◌, arith, ◌==◌, ◌!=◌, if◌then◌else◌, length, Bool-cases, ==_iff, Any,
}
use sysx.Base.Memory.{update}
use sysx.Fs.Devfs.{
  same_functions, create, create_behind, Functions, DevNode, Nodes, Devfs, set_link, is_valid,
  last_from, append, find_before, remove,
}

-- Behind the node the devices `xs` follow, and then null.
abbrev pub IsList : Nodes → ℕ → List ℕ → Type 0
IsList m p [] = (m p).link ≡ 0
IsList m p (x ∷ xs) = ((m p).link ≡ x) × (x ≢ 0) × IsList m x xs

find_before-link :
    (fuel : ℕ) (m : Nodes) (root node : ℕ) (xs : List ℕ)
    → IsList m root xs
    → Any (λ x. x ≡ node) xs
    → length xs < fuel
    → (r : ℕ) × (find_before fuel m root node ≡ some r) × ((m r).link ≡ node)
unfolding find_before
find_before-link zero m root node xs l at enough = elim enough [ ]
find_before-link (suc k) m root node [] l at enough = elim at [ ]
find_before-link (suc k) m root node (x ∷ xs) (e, nz, l) at enough = elim (Bool-cases (x == node)) [
  | inl here ↦ (root, ground arith, ground arith)
  | inr there ↦
      let (r, found, link) = find_before-link k m x node xs l (later there at) (omega arith) in
      (r, ground arith, link)
]
  where
    later : (x == node) ≡ false → (x ≡ node) ⊎ Any (λ y. y ≡ node) xs → Any (λ y. y ≡ node) xs
    later ne (inl e) = absurd (ground arith)
    later ne (inr h) = h

-- `devfs_remove` of a device that is in the list behind the root changes nothing.
pub remove-keeps :
    (fuel hook_root root node : ℕ) (m : Nodes) (xs : List ℕ)
    → IsList m root xs
    → Any (λ x. x ≡ node) xs
    → length xs < fuel
    → remove fuel hook_root root node m ≡ some m
unfolding remove
remove-keeps fuel hook_root root node m xs l at enough =
    let (r, found, link) = find_before-link fuel m root node xs l at enough in
    let same : ((m r).link != node) ≡ false = ground arith in
    elim (Bool-cases (is_valid hook_root root m)) [
      | inl valid ↦ rw (valid, found, same)
      | inr other ↦ rw other
    ]

abbrev last_of : ℕ → List ℕ → ℕ
last_of p [] = p
last_of p (x ∷ xs) = last_of x xs

-- None of the nodes is this one.
abbrev pub Fresh : ℕ → List ℕ → Type 0
Fresh a [] = Unit {0}
Fresh a (x ∷ xs) = ((a == x) ≡ false) × Fresh a xs

last_of-link : (m : Nodes) (p : ℕ) (xs : List ℕ) → IsList m p xs → (m (last_of p xs)).link ≡ 0
last_of-link m p [] l = l
last_of-link m p (x ∷ xs) (e, nz, l) = last_of-link m x xs l

last_of-Fresh : (a p : ℕ) (xs : List ℕ) → Fresh a (p ∷ xs) → (a == last_of p xs) ≡ false
last_of-Fresh a p [] f = f.0
last_of-Fresh a p (x ∷ xs) f = last_of-Fresh a x xs f.1

appended :
    (m : Nodes) (n : DevNode) (p node last : ℕ) (xs : List ℕ)
    → n.link ≡ 0
    → IsList m p xs
    → Fresh node (p ∷ xs)
    → node ≢ 0
    → last ≡ last_of p xs
    → IsList (set_link last node (update m node n)) p (xs ++ (node ∷ []))
appended m n p node last [] end l f nz e = (ground arith, nz, ground arith)
appended m n p node last (x ∷ xs) end (at, xz, l) f nz e =
    let stop = last_of-link m x xs l in
    let inner : (last == p) ≡ false = elim (Bool-cases (last == p)) [
      | inr ne ↦ ne
      | inl eq ↦
          let same : last ≡ p = (==_iff _ _).0 eq in
          absurd (xz (sym at ∙ ap (λ a. (m a).link) (sym same ∙ e) ∙ stop))
    ] in
    (ground arith, xz, appended m n x node last xs end l f.1 nz e)

last_from-last :
    (fuel : ℕ) (s : Devfs) (f : Functions) (p hook : ℕ) (xs : List ℕ)
    → IsList s.nodes p xs
    → length xs < fuel
    → (h : ℕ) × (last_from fuel s f p hook ≡ some (last_of p xs, h))
unfolding last_from
last_from-last zero s f p hook xs l enough = elim enough [ ]
last_from-last (suc k) s f p hook [] l enough = (
  if hook == 0 && same_functions (s.hooks (s.nodes p).hook) f then (s.nodes p).hook else hook,
  rw l,
)
last_from-last (suc k) s f p hook (x ∷ xs) (e, nz, l) enough =
    let more : ((s.nodes p).link == 0) ≡ false = ground arith in
    let (h, rest) =
      last_from-last k s f x
        (if hook == 0 && same_functions (s.hooks (s.nodes p).hook) f
          then (s.nodes p).hook
          else hook)
        xs l (omega arith) in
    (h, rw (more, e) rest)

module _ (root node fresh_hook : ℕ) (f : Functions) (block : Bool) (size : ℕ) (name : List ℕ) where
  Created : Devfs → List ℕ → ℕ × Devfs → Type 0
  Created s xs c = (r : Devfs) × (c ≡ (node, r)) × IsList r.nodes root (xs ++ (node ∷ []))

  append-IsList :
      (s : Devfs) (xs : List ℕ) (last hook : ℕ)
      → IsList s.nodes root xs
      → Fresh node (root ∷ xs)
      → node ≢ 0
      → (if last == 0 then root else last) ≡ last_of root xs
      → IsList (append root last node hook f block size name s).nodes root (xs ++ (node ∷ []))
  unfolding append
  append-IsList s xs last hook l fresh nz e =
      appended s.nodes _ root node (if last == 0 then root else last) xs refl l fresh nz e

  create_behind-Created :
      (s : Devfs) (xs : List ℕ) (last hook : ℕ)
      → IsList s.nodes root xs
      → Fresh node (root ∷ xs)
      → node ≢ 0
      → fresh_hook ≢ 0
      → (if last == 0 then root else last) ≡ last_of root xs
      → Created s xs (create_behind root node fresh_hook f block size name s last hook)
  unfolding create_behind Created
  create_behind-Created s xs last hook l fresh nz hz e =
      let got : (node == 0) ≡ false = ground arith in
      let made : (fresh_hook == 0) ≡ false = ground arith in
      elim (Bool-cases (hook == 0)) [
        | inl new ↦
            let s' : Devfs = record s { hooks = update s.hooks fresh_hook f } in
            (
              append root last node fresh_hook f block size name s',
              rw (got, new, made),
              append-IsList s' xs last fresh_hook l fresh nz e,
            )
        | inr old ↦ (
          append root last node hook f block size name s,
          rw (got, old),
          append-IsList s xs last hook l fresh nz e,
        )
      ]

last_of-ne : (m : Nodes) (x : ℕ) (xs : List ℕ) → x ≢ 0 → IsList m x xs → last_of x xs ≢ 0
last_of-ne m x [] nz l = nz
last_of-ne m x (y ∷ ys) nz (e, yz, l) = last_of-ne m y ys yz l

-- `devfs_create` behind a valid root, with both allocations, returns the new node, which is not in
-- the list yet, and puts it behind the devices there are.
pub create-IsList :
    (fuel hook_root root node fresh_hook : ℕ) (f : Functions) (block : Bool) (size : ℕ)
    (name : List ℕ) (s : Devfs) (xs : List ℕ)
    → is_valid hook_root root s.nodes ≡ true
    → IsList s.nodes root xs
    → Fresh node (root ∷ xs)
    → node ≢ 0
    → fresh_hook ≢ 0
    → length xs < fuel
    → (r : Devfs) × (create fuel hook_root root node fresh_hook f block size name s
        ≡ some (node, r))
      × IsList r.nodes root (xs ++ (node ∷ []))
unfolding create Created
create-IsList fuel hook_root root node fresh_hook f block size name s [] valid l fresh nz hz
      enough =
    let (r, e, h) =
      create_behind-Created root node fresh_hook f block size name s [] 0 0 l fresh nz hz refl in
    let empty : ((s.nodes root).link == 0) ≡ true = ground arith in
    (r, rw (valid, empty) (ap some e), h)
create-IsList fuel hook_root root node fresh_hook f block size name s (x ∷ xs) valid (at, xz, l)
      fresh nz hz enough =
    let (hook, found) = last_from-last fuel s f x 0 xs l (omega arith) in
    let some_last : (last_of x xs == 0) ≡ false = ground (arith, last_of-ne s.nodes x xs xz l) in
    let (r, e, h) =
      create_behind-Created root node fresh_hook f block size name s (x ∷ xs) (last_of x xs) hook
        (at, xz, l) fresh nz hz (rw some_last) in
    let more : ((s.nodes root).link == 0) ≡ false = ground arith in
    let found' : last_from fuel s f (s.nodes root).link 0 ≡ some (last_of x xs, hook) =
      ap (λ a. last_from fuel s f a 0) at ∙ found in
    (r, rw (valid, more, found') (ap some e), h)
