-- ===== src/Basic/Strings.antt =====
-- Trim.
use c_framework_to_server.Base.{ℕ, ◌≡◌, refl, ap, ◌≢◌, some, List, [], ◌∷◌, ◌++◌, arith, All}
use c_framework_to_server.Base.CStrings.{IsChar}
use c_framework_to_server.Basic.{without_spaces, trim}

-- Not a space.
abbrev pub IsVisible : ℕ → Type 0
IsVisible c = c ≢ 32

without_spaces-IsVisible : (str : List ℕ) → All IsVisible (without_spaces str)
unfolding without_spaces
without_spaces-IsVisible [] = tt
without_spaces-IsVisible (c ∷ str) = ground (arith, without_spaces-IsVisible str)

without_spaces-append :
    (xs ys : List ℕ) → without_spaces (xs ++ ys) ≡ without_spaces xs ++ without_spaces ys
unfolding without_spaces
without_spaces-append [] ys = refl
without_spaces-append (c ∷ xs) ys = ground (arith, without_spaces-append xs ys)

without_spaces_self : (str : List ℕ) → All IsChar str → All IsVisible str → without_spaces str ≡ str
unfolding without_spaces
without_spaces_self [] h k = refl
without_spaces_self (c ∷ str) h k = ground (arith, without_spaces_self str h.1 k.1)

-- Trim of a string without spaces is a copy of it.
pub trim_self :
    (c : ℕ) (str : List ℕ)
    → All IsChar (c ∷ str)
    → All IsVisible (c ∷ str)
    → trim (c ∷ str) ≡ some (c ∷ str)
unfolding trim
trim_self c str h k = ap some (without_spaces_self (c ∷ str) h k)
