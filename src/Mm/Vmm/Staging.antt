-- ===== src/Mm/Vmm/Staging.antt =====
-- `vmm_stage_free` and `vmm_do_cleanup`: a staged address space is freed unless it is the current one.
use sysx.Base.{
  ℕ, zero, suc, ◌<◌, ◌≤◌, ◌≡◌, ◌≢◌, subst, refl, inl, inr, Bool, true, false, ◌&&◌, List, [], ◌∷◌,
  ◌++◌, arith, ◌!=◌, ◌==◌, if◌then◌else◌, length, set, replicate, Any, All, Bool-cases,
}
use sysx.Mm.Vmm.Traps.{Call, waits, returns, Stage, find_zero, stage_free, clean_from, do_cleanup}

-- Whether an address space is to be freed.
abbrev pub is_due : ℕ → ℕ → Bool
is_due current x = x != 0 && x != current

IsIn : ℕ → List ℕ → Type 0
IsIn x xs = Any (λ y. y ≡ x) xs

-- What the loop of `vmm_do_cleanup` comes to.
abbrev pub IsCleaned : ℕ → List ℕ → List ℕ → List ℕ → Type 0
IsCleaned current xs freed rest =
    All (λ x. is_due current x ≡ true) freed
    × All (λ x. is_due current x ≡ false) rest
    × ((x : ℕ) → is_due current x ≡ true → Any (λ y. y ≡ x) xs → Any (λ y. y ≡ x) freed)

clean_from-IsCleaned :
    (current : ℕ) (xs : List ℕ)
    → IsCleaned current xs (clean_from current xs).0 (clean_from current xs).1
unfolding clean_from
clean_from-IsCleaned current [] = (tt, tt, λ x due h. h)
clean_from-IsCleaned current (x ∷ xs) =
    let (due, stay, all) = clean_from-IsCleaned current xs in
    elim (Bool-cases (is_due current x)) [
      | inl free ↦
          rw (clean_from, free)
            (
              (free, due),
              (ground arith, stay),
              λ y h. λ m. elim m [ inl e ↦ inl e | inr later ↦ inr (all y h later) ],
            )
      | inr keep ↦
          rw (clean_from, keep)
            (
              due,
              (keep, stay),
              λ y h. λ m. elim m [ inl e ↦ absurd (ground arith) | inr later ↦ all y h later ],
            )
    ]

find_zero-le : (xs : List ℕ) → find_zero xs ≤ length xs
unfolding find_zero
find_zero-le [] = omega arith
find_zero-le (x ∷ xs) = ground (arith, find_zero-le xs)

IsIn-set : (xs : List ℕ) (i x : ℕ) → i < length xs → IsIn x (set xs i x)
unfolding IsIn
IsIn-set [] i x lt = elim lt [ ]
IsIn-set (y ∷ ys) zero x lt = inl refl
IsIn-set (y ∷ ys) (suc i) x lt = inr (IsIn-set ys i x (omega arith))

IsIn-append : (xs ys : List ℕ) (x : ℕ) → IsIn x (xs ++ (x ∷ ys))
unfolding IsIn
IsIn-append [] ys x = inl refl
IsIn-append (y ∷ xs) ys x = inr (IsIn-append xs ys x)

IsIn-append_left : (xs ys : List ℕ) (x : ℕ) → IsIn x xs → IsIn x (xs ++ ys)
unfolding IsIn
IsIn-append_left [] ys x h = elim h [ ]
IsIn-append_left (y ∷ xs) ys x (inl e) = inl e
IsIn-append_left (y ∷ xs) ys x (inr h) = inr (IsIn-append_left xs ys x h)

find_zero_cons :
    (y : ℕ) (ys : List ℕ) → find_zero (y ∷ ys) ≡ (if y == 0 then 0 else suc (find_zero ys))
unfolding find_zero
find_zero_cons y ys = ground arith

-- The place that is taken holds 0, so that nothing else is lost.
IsIn-set_zero : (xs : List ℕ) (x v : ℕ) → x ≢ 0 → IsIn x xs → IsIn x (set xs (find_zero xs) v)
unfolding IsIn
IsIn-set_zero [] x v real h = h
IsIn-set_zero (y ∷ ys) x v real h = elim (Bool-cases (y == 0)) [
  | inl null ↦
      rw (find_zero_cons y ys, null)
        (elim h [ inl e ↦ absurd (ground arith) | inr later ↦ inr later ])
  | inr full ↦
      rw (find_zero_cons y ys, full)
        (elim h [ inl e ↦ inl e | inr later ↦ inr (IsIn-set_zero ys x v real later) ])
]

-- What a call of `vmm_stage_free` with memory leaves behind.
Holds : ℕ → List ℕ → Call Stage → Type 0
Holds vmm xs waits = ⊥
Holds vmm xs (returns q) =
    (q.locked ≡ false) × IsIn vmm q.staged × ((x : ℕ) → x ≢ 0 → IsIn x xs → IsIn x q.staged)

stage_free-Holds :
    (vmm : ℕ) (xs : List ℕ)
    → Holds vmm xs (stage_free true vmm (record { staged = xs; locked = false }))
unfolding stage_free Holds
stage_free-Holds vmm xs = elim (Bool-cases (find_zero xs != length xs)) [
  | inl room ↦
      rw (stage_free, room)
        (
          refl,
          IsIn-set xs (find_zero xs) vmm (ground (arith, find_zero-le xs)),
          λ x real h. IsIn-set_zero xs x vmm real h,
        )
  | inr full ↦
      rw (stage_free, full)
        (
          refl,
          IsIn-append xs (replicate 3 0) vmm,
          λ x real h. IsIn-append_left xs (vmm ∷ replicate 3 0) x h,
        )
]

-- After `vmm_stage_free` of an address space, with memory for the queue, the next `vmm_do_cleanup` frees
-- it and every one that was staged before, unless it is the current one or null; after it no address
-- space but the current one is staged, and the current one has not been freed.
pub do_cleanup-stage_free :
    (current vmm : ℕ) (xs : List ℕ) (q : Stage)
    → stage_free true vmm (record { staged = xs; locked = false }) ≡ returns q
    → ((x : ℕ)
        → is_due current x ≡ true
        → Any (λ y. y ≡ x) (vmm ∷ xs)
        → Any (λ y. y ≡ x) (do_cleanup current q).0)
      × All (λ x. is_due current x ≡ true) (do_cleanup current q).0
      × All (λ x. is_due current x ≡ false) (do_cleanup current q).1.staged
unfolding do_cleanup Holds IsIn
do_cleanup-stage_free current vmm xs q e =
    let held : Holds vmm xs (returns q) = rw e at (stage_free-Holds vmm xs) in
    let (free, within, before) = held in
    let (all_due, rest, all) = clean_from-IsCleaned current q.staged in
    rw (do_cleanup, free)
      (
        λ x due h. all x due (elim h [
          | inl same ↦ subst (λ v. Any (λ y. y ≡ v) q.staged) same within
          | inr later ↦ before x (ground (arith, due)) later
        ]),
        all_due,
        rest,
      )
