-- ===== src/Libc/String/Tests.antt =====
-- The theorems of string.c at small areas of memory.
use sysx.Base.{◌+◌, ◌-◌, ◌≡◌, refl, [], ◌∷◌, ◌&&◌, ltb, leb, ◌==◌, if◌then◌else◌, arith}
use sysx.Base.Memory.{Memory}
use sysx.Libc.String.{memmove, memset16, copy_down, fill16}
use sysx.Libc.String.Move.{memmove_lem}
use sysx.Libc.String.Strings.{IsString}
use sysx.Libc.String.Compare.{IsByteMemory}

-- "ab" at 16, "ac" at 32.
abbrev memory : Memory
memory a =
    if a == 16
    then b'a'
    else if a == 17
    then b'b'
    else if a == 32
    then b'a'
    else if a == 33
    then b'c'
    else 0

memory-IsByteMemory : IsByteMemory memory
memory-IsByteMemory a = ground arith

ab-IsString : IsString memory 16 (b'a' ∷ b'b' ∷ [])
ab-IsString = (refl, omega arith, (refl, omega arith, refl))

ac-IsString : IsString memory 32 (b'a' ∷ b'c' ∷ [])
ac-IsString = (refl, omega arith, (refl, omega arith, refl))

overlap : memmove 17 16 2 memory 18 ≡ b'b'
unfolding memmove copy_down
overlap = refl

memset16_runs : (memset16 64 0x4142 2 memory 64 ≡ 0x42) × (memset16 64 0x4142 2 memory 67 ≡ 0)
unfolding memset16 fill16
memset16_runs = (refl, refl)

memmove_lem_example :
    memmove 17 16 2 memory 18
    ≡ (if leb 17 18 && ltb 18 19 then memory (16 + (18 - 17)) else memory 18)
memmove_lem_example = memmove_lem 17 16 2 memory (omega arith) (omega arith) (omega arith) 18
