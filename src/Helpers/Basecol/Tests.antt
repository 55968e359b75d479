-- ===== src/Helpers/Basecol/Tests.antt =====
-- basecol.c at small numbers.
use sysx.Base.{ℕ, ◌≡◌, refl, true, false, some, List, [], ◌∷◌, ◌++◌, arith}
use sysx.Helpers.Basecol.{encode, decode}
use sysx.Helpers.Basecol.RoundTrip.{decode-encode}

encode-abc : encode 730 true ≡ some (b'A' ∷ b'B' ∷ b'C' ∷ [])
unfolding encode
encode-abc = refl

decode-encode_example :
    (cs : List ℕ) × (encode 730 false ≡ some cs) × (decode (cs ++ (b'1' ∷ [])) ≡ (730, b'1' ∷ []))
decode-encode_example = decode-encode 730 false (b'1' ∷ []) (omega arith) refl
