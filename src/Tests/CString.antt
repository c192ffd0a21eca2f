-- ===== src/Tests/CString.antt =====
-- The functions on C strings at concrete strings.
use ly_system_os.Prelude.{ℕ, ◌≡◌, refl, some, List, [], ◌∷◌}
use ly_system_os.CString.{reverse_loop, reverse}

-- "ab", its end, and what stands behind it.
abbrev ab : List ℕ
ab = 97 ∷ 98 ∷ 0 ∷ 120 ∷ []

abbrev abc : List ℕ
abc = 97 ∷ 98 ∷ 99 ∷ 0 ∷ []

abbrev name : List ℕ
name = 1 ∷ 2 ∷ 3 ∷ 4 ∷ 5 ∷ []

reversed_abc : reverse abc 3 ≡ some (99 ∷ 98 ∷ 97 ∷ 0 ∷ [])
unfolding reverse reverse_loop
reversed_abc = refl
