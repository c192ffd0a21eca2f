-- ===== src/CString/Compare.antt =====
-- What strlen and strcmp of lib/string.c say of the texts of strings.
use ly_system_os.Prelude.{ℕ, ◌≡◌, refl, ◌↔◌, List, [], ◌∷◌, arith, length}
use ly_system_os.Prelude.Int.{pos}
use ly_system_os.CString.{text, strlen, strcmp}

-- strlen is the number of bytes of the text.
pub strlen-text : (s : List ℕ) → strlen s ≡ length (text s)
unfolding strlen
strlen-text [] = refl
strlen-text (c ∷ cs) = ground (arith, strlen-text cs)

same_text : (s1 s2 : List ℕ) → strcmp s1 s2 ≡ pos 0 → text s1 ≡ text s2
unfolding strcmp
same_text [] [] e = refl
same_text [] (d ∷ ds) e = ground arith
same_text (c ∷ cs) [] e = ground arith
same_text (c ∷ cs) (d ∷ ds) e = ground (arith, same_text cs ds)

text_same : (s1 s2 : List ℕ) → text s1 ≡ text s2 → strcmp s1 s2 ≡ pos 0
unfolding strcmp
text_same [] [] e = refl
text_same [] (d ∷ ds) e = ground arith
text_same (c ∷ cs) [] e = ground arith
text_same (c ∷ cs) (d ∷ ds) e = ground (arith, text_same cs ds)

-- strcmp gives 0 exactly for strings with the same text.
pub strcmp_lem : (s1 s2 : List ℕ) → (strcmp s1 s2 ≡ pos 0) ↔ (text s1 ≡ text s2)
strcmp_lem s1 s2 = (same_text s1 s2, text_same s1 s2)
