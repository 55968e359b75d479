-- ===== src/Kernel/Cmdline.antt =====
-- kernel/cmdline.c: the command line as words. A word is its characters before its NUL.
pub mod Find
mod Tests
use sysx.Base.{
  ℕ, zero, suc, ◌+◌, ◌-◌, Bool, true, false, ◌&&◌, ◌||◌, Option, none, some, List, [], ◌∷◌, ◌++◌,
  leb, ltb, ◌==◌, ◌!=◌, if◌then◌else◌, length, get_or, take,
}

abbrev pub drop : ℕ → List ℕ → List ℕ
drop zero cs = cs
drop (suc n) [] = []
drop (suc n) (c ∷ cs) = drop n cs

-- The loop of `cmdline_init` with `left` rounds to go: the words that it adds. A word of one character
-- is passed over.
pub tokenize : List ℕ → ℕ → ℕ → ℕ → List (List ℕ)
tokenize cmdline start end zero = []
tokenize cmdline start end (suc left) =
    let same = tokenize cmdline start (end + 1) left in
    let more = tokenize cmdline (end + 1) (end + 1) left in
    if leb (length cmdline) start
    then []
    else if get_or cmdline end 0 == b' ' || get_or cmdline end 0 == 0
    then (if leb (end - start) 1 then more else take (end - start) (drop start cmdline) ∷ more)
    else same

-- `cmdline_init`: `kernel_argv`
pub init : List ℕ → List (List ℕ)
unfolding tokenize
init str = tokenize str 0 1 (length str)

-- `!strcmp(a, b)`
unfoldable pub same_text : List ℕ → List ℕ → Bool
same_text [] [] = true
same_text [] (d ∷ ds) = false
same_text (c ∷ cs) [] = false
same_text (c ∷ cs) (d ∷ ds) = c == d && same_text cs ds

pub find_flag : List (List ℕ) → List ℕ → Bool
unfolding same_text
find_flag [] key = false
find_flag (a ∷ argv) key = let rest = find_flag argv key in if same_text a key then true else rest

-- `!strncmp(a, key, strlen(key)) && a[strlen(key)] == '='`, and then what is behind.
pub value_behind : List ℕ → List ℕ → Option (List ℕ)
value_behind [] [] = none
value_behind (c ∷ cs) [] = if c == b'=' then some cs else none
value_behind [] (d ∷ ds) = none
value_behind (c ∷ cs) (d ∷ ds) = let rest = value_behind cs ds in if c == d then rest else none

pub find_kvp : List (List ℕ) → List ℕ → Option (List ℕ)
unfolding value_behind
find_kvp [] key = none
find_kvp (a ∷ argv) key =
    let rest = find_kvp argv key in elim (value_behind a key) [ some v ↦ some v | none ↦ rest ]
