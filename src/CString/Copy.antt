-- ===== src/CString/Copy.antt =====
-- What strncpy of lib/string.c leaves in the destination.
use ly_system_os.Prelude.{
  ℕ, zero, suc, ◌≤◌, ◌<◌, ◌≡◌, refl, sym, ap, inl, inr, List, [], ◌∷◌, arith, ◌==◌, ==_iff,
  Bool-cases, length,
}
use ly_system_os.CString.{strncpy, text}

-- strncpy of a text that is shorter than n, into a destination of at least n bytes: the destination then has exactly that text.
pub text-strncpy :
    (dest src : List ℕ) (n : ℕ)
    → length (text src) < n
    → n ≤ length dest
    → text (strncpy dest src n) ≡ text src
unfolding strncpy
text-strncpy [] src n short room = absurd (omega arith)
text-strncpy (d ∷ ds) src zero short room = absurd (omega arith)
text-strncpy (d ∷ ds) [] (suc n) short room = refl
text-strncpy (d ∷ ds) (c ∷ cs) (suc n) short room = ground (arith, text-strncpy ds cs n)

-- What strncpy leaves depends on the text of its source alone.
pub strncpy-text :
    (dest x y : List ℕ) (n : ℕ) → text x ≡ text y → strncpy dest x n ≡ strncpy dest y n
unfolding strncpy
strncpy-text [] x y n same = refl
strncpy-text (d ∷ ds) x y zero same = refl
strncpy-text (d ∷ ds) [] [] (suc n) same = refl
strncpy-text (d ∷ ds) [] (c ∷ cs) (suc n) same = elim (Bool-cases (c == 0)) [
  | inl end ↦ rw end (ap (λ x. x ∷ strncpy ds [] n) (sym ((==_iff c 0).0 end)))
  | inr more ↦ absurd (let e = rw more at (same) in cc)
]
strncpy-text (d ∷ ds) (c ∷ cs) [] (suc n) same = elim (Bool-cases (c == 0)) [
  | inl end ↦ rw end (ap (λ x. x ∷ strncpy ds [] n) ((==_iff c 0).0 end))
  | inr more ↦ absurd (let e = rw more at (same) in cc)
]
strncpy-text (d ∷ ds) (c ∷ cs) (b ∷ bs) (suc n) same =
    ground (arith, strncpy-text ds cs bs n, strncpy-text ds [] [] n)
