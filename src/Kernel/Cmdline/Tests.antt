-- ===== src/Kernel/Cmdline/Tests.antt =====
-- A command line with a flag, a single character and a value.
use sysx.Base.{ℕ, ◌≡◌, ◌≢◌, refl, true, none, some, List, [], ◌∷◌, Any, All}
use sysx.Kernel.Cmdline.{init, find_flag, find_kvp}
use sysx.Kernel.Cmdline.Find.{find_kvp_iff}

abbrev words : List (List ℕ)
words = (b'o' ∷ b'k' ∷ []) ∷ (b'k' ∷ b'=' ∷ b'v' ∷ []) ∷ []

-- The word "x" is lost.
init_runs : init (b'o' ∷ b'k' ∷ b' ' ∷ b'x' ∷ b' ' ∷ b'k' ∷ b'=' ∷ b'v' ∷ []) ≡ words
unfolding init
init_runs = refl

finds : find_flag words (b'o' ∷ b'k' ∷ []) ≡ true
unfolding find_flag
finds = refl

find_kvp_iff_example :
    ((v : List ℕ) → find_kvp words (b'k' ∷ []) ≡ some v → Any (λ a. a ≡ b'k' ∷ b'=' ∷ v) words)
    × (find_kvp words (b'k' ∷ []) ≡ none → (v : List ℕ) → All (λ a. a ≢ b'k' ∷ b'=' ∷ v) words)
find_kvp_iff_example = find_kvp_iff words (b'k' ∷ [])
