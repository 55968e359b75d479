-- ===== src/Fs/Ftab/Shared.antt =====
-- `ftab_open` of a node that no process has to itself.
use sysx.Base.{
  ℕ, suc, ◌+◌, ◌%◌, ◌≤◌, ◌<◌, ◌≡◌, ◌≢◌, ◌⊎◌, inl, inr, refl, ◌∙◌, ap, Bool, true, false, not, ◌||◌,
  some, List, [], ◌∷◌, arith, ◌==◌, length, get_or, set, get_or-set_self, length-set, Bool-cases,
  ℕ_discrete,
}
use sysx.Fs.Ftab.{
  Entry, blank, Ftab, FileOps, returns, refs_mod, differs, find, make_room, open_first, open_again,
  open_file,
}

find_here :
    (x : Entry) (es : List Entry) (node : ℕ)
    → (x.node == 0 || x.node == node) ≡ true
    → find (x ∷ es) node ≡ 0
unfolding find
find_here x es node here = rw here refl

find_past :
    (x : Entry) (es : List Entry) (node : ℕ)
    → (x.node == 0 || x.node == node) ≡ false
    → find (x ∷ es) node ≡ suc (find es node)
unfolding find
find_past x es node past = rw past (omega arith)

find-set :
    (es : List Entry) (node : ℕ) (e : Entry)
    → find es node < length es
    → e.node ≡ node
    → find (set es (find es node) e) node ≡ find es node
find-set [] node e inside same = absurd (omega arith)
find-set (x ∷ es) node e inside same = elim (Bool-cases (x.node == 0 || x.node == node)) [
  | inl here ↦ rw (find_here x es node here) (find_here e es node (ground (arith, same)))
  | inr past ↦
      let next = find_past x es node past in
      rw next (
        find_past x (set es (find es node) e) node past
        ∙ ap (λ n. suc n) (find-set es node e (omega (arith, next)) same))
]

-- The entry of the node, or the one that it will get, at index `idx`: no one works on it or has it
-- alone, and it has at most `k` holders.
unfoldable pub Shared : {S : Type 0} → ℕ → ℕ → ℕ → Ftab S → Type 0
Shared node k idx t =
    let e = get_or t.entries idx blank in
    (find t.entries node ≡ idx)
    × (idx < length t.entries)
    × (t.locked ≡ false)
    × (e.locked ≡ false)
    × (e.excl ≡ 0)
    × (e.refs ≤ k)
    × ((e.node ≡ 0) ⊎ (e.node ≡ node))

settled :
    {S : Type 0} (es : List Entry) (node k idx : ℕ) (e : Entry) (s : S)
    → find es node ≡ idx
    → idx < length es
    → e.node ≡ node
    → e.locked ≡ false
    → e.excl ≡ 0
    → e.refs ≤ k
    → Shared node k idx (record { entries = set es idx e; locked = false; files = s })
unfolding Shared
settled es node k idx e s at inside same free shared few =
    rw (get_or-set_self es idx e blank inside) (
      rw at at (find-set es node e (omega (arith, at)) same),
      omega (arith, inside, length-set es idx e),
      refl,
      free,
      shared,
      few,
      inr same,
    )

module _ {S : Type 0} (ops : FileOps S) where
  open_first_lem :
      (es : List Entry) (idx node proc : ℕ) (read write : Bool) (s : S)
      → (ops.on_open node read write s).0 ≡ true
      → open_first ops es idx node proc read write false s
        ≡ returns (some idx) (record {
          entries = set es idx (record {
            node = node;
            read = read;
            write = write;
            refs = 1;
            excl = 0;
            locked = false;
          });
          locked = false;
          files = (ops.on_open node read write s).1;
        })
  unfolding open_first
  open_first_lem es idx node proc read write s ok = rw ok refl

  open_again_lem :
      (es : List Entry) (idx node proc : ℕ) (read write : Bool) (s : S)
      → ((read write : Bool) (s : S) → (ops.on_open node read write s).0 ≡ true)
      → (get_or es idx blank).excl ≡ 0
      → (get_or es idx blank).refs + 1 < refs_mod
      → (r w : Bool) × (s' : S) × (open_again ops es idx node proc read write false s
          ≡ returns (some idx) (record {
            entries = set es idx (record (get_or es idx blank) {
              read = r;
              write = w;
              refs = (get_or es idx blank).refs + 1;
            });
            locked = false;
            files = s';
          }))
  unfolding open_again
  open_again_lem es idx node proc read write s ok shared few =
      let e = get_or es idx blank in
      let count : (e.refs + 1) % refs_mod ≡ e.refs + 1 = omega arith in
      elim (Bool-cases
        (not (differs (read || e.read) e.read || differs (write || e.write) e.write))) [
          | inl same ↦ (e.read, e.write, s, rw (shared, same, count) refl)
          | inr more ↦ (
            read || e.read,
            write || e.write,
            (ops.on_open node (read || e.read) (write || e.write) s).1,
            rw (shared, more, count, ok (read || e.read) (write || e.write) s) refl,
          )
        ]

  open_file_enters :
      (allocated : Bool) (node proc : ℕ) (read write : Bool) (t : Ftab S)
      → let idx = find t.entries node in
        idx < length t.entries
        → t.locked ≡ false
        → (get_or t.entries idx blank).locked ≡ false
        → ((get_or t.entries idx blank).node ≡ 0
            → open_file ops allocated node proc read write false t
              ≡ open_first ops t.entries idx node proc read write false t.files)
          × ((get_or t.entries idx blank).node ≢ 0
              → open_file ops allocated node proc read write false t
                ≡ open_again ops t.entries idx node proc read write false t.files)
  unfolding open_file make_room
  open_file_enters allocated node proc read write t inside unlocked free =
      let idx = find t.entries node in
      let room : (idx == length t.entries) ≡ false = ground arith in
      (
        λ z.
            let unused : ((get_or t.entries idx blank).node == 0) ≡ true = ground (arith, z) in
            rw (open_file, unlocked, room, free, unused) refl,
        λ other.
            let used : ((get_or t.entries idx blank).node == 0) ≡ false = ground (arith, other) in
            rw (open_file, unlocked, room, free, used) refl,
      )

  -- If the driver opens the node, and no one works on its entry or has it alone, `ftab_open` returns the
  -- entry, which has at most one holder more and is shared as before.
  pub open_file-Shared :
      (allocated : Bool) (node proc k idx : ℕ) (read write : Bool) (t : Ftab S)
      → node ≢ 0
      → 0 < k
      → k + 1 < refs_mod
      → ((read write : Bool) (s : S) → (ops.on_open node read write s).0 ≡ true)
      → Shared node k idx t
      → (u : Ftab S) × (open_file ops allocated node proc read write false t ≡ returns (some idx) u)
        × Shared node (k + 1) idx u
  unfolding Shared
  open_file-Shared allocated node proc k idx read write t there held few ok
        (at, inside, unlocked, free, shared, refs, kind) =
      let e = get_or t.entries idx blank in
      let enters = rw at at (
        open_file_enters allocated node proc read write t (omega (arith, at)) unlocked
          (ap (λ i. (get_or t.entries i blank).locked) at ∙ free)) in
      elim (ℕ_discrete e.node 0) [
        | yes z ↦ (
          _,
          enters.0 z
              ∙ (open_first_lem t.entries idx node proc read write t.files (ok read write t.files)),
          settled t.entries node (k + 1) idx _ (ops.on_open node read write t.files).1 at inside
              refl refl refl (omega arith),
        )
        | no other ↦
            let same : e.node ≡ node = elim kind [ inl z ↦ absurd (other z) | inr same ↦ same ] in
            let (r, w, s', run) =
              open_again_lem t.entries idx node proc read write t.files (λ r w s. ok r w s) shared
                (omega arith) in
            (
              _,
              enters.1 other ∙ run,
              settled t.entries node (k + 1) idx _ s' at inside same free shared (omega arith),
            )
      ]
