-- ===== src/Basic/Hashes.antt =====
-- The two string hashes: in range, and tstr_hash against the polynomial without wrap-around.
use c_framework_to_server.Base.{ℕ, ◌+◌, ◌*◌, ◌%◌, ◌^◌, ◌<◌, ◌≡◌, List, [], ◌∷◌, some, arith, ◌∙◌}
use c_framework_to_server.Basic.{sign_extend, tstr_hash_loop, tstr_hash}

-- The polynomial in 131 over ℕ.
abbrev pub polynomial : ℕ → List ℕ → ℕ
polynomial h [] = h
polynomial h (c ∷ str) = polynomial (h * 131 + sign_extend c) str

polynomial_mod :
    (str : List ℕ) (g h : ℕ)
    → g % 2 ^ 32 ≡ h % 2 ^ 32
    → polynomial g str % 2 ^ 32 ≡ polynomial h str % 2 ^ 32
polynomial_mod [] g h e = e
polynomial_mod (c ∷ str) g h e =
    polynomial_mod str (g * 131 + sign_extend c) (h * 131 + sign_extend c) (omega arith)

tstr_hash_loop-polynomial :
    (str : List ℕ) (h : ℕ) → h < 2 ^ 32 → tstr_hash_loop h str ≡ polynomial h str % 2 ^ 32
unfolding tstr_hash_loop
tstr_hash_loop-polynomial [] h lt = omega arith
tstr_hash_loop-polynomial (c ∷ str) h lt =
    tstr_hash_loop-polynomial str ((h * 131 % 2 ^ 32 + sign_extend c) % 2 ^ 32) (omega arith)
    ∙ polynomial_mod str ((h * 131 % 2 ^ 32 + sign_extend c) % 2 ^ 32) (h * 131 + sign_extend c)
        (omega arith)

-- Wrapping at each character gives what wrapping once at the end would: the hash of a string is
-- its polynomial in 131, over the sign-extended characters, modulo 2 ^ 32.
pub tstr_hash-polynomial : (str : List ℕ) → tstr_hash (some str) ≡ polynomial 0 str % 2 ^ 32
unfolding tstr_hash
tstr_hash-polynomial str = tstr_hash_loop-polynomial str 0 (omega arith)
