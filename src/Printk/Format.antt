-- ===== src/Printk/Format.antt =====
-- What vsprintk of kernel/printk.c prints for a format that is put together from pieces.
use ly_system_os.Prelude.{
  ℕ, ◌%◌, ◌^◌, ◌≤◌, ◌<◌, ◌≡◌, refl, ap, ◌∙◌, false, Option, none, some, List, [], ◌∷◌, ◌++◌, arith,
  ◌==◌, length, All,
}
use ly_system_os.CString.{codes, text, first}
use ly_system_os.CString.Digits.{Writes}
use ly_system_os.CString.Itoa.{itoa_lem}
use ly_system_os.Printk.{
  print_string, printed, print_number, print_character, before, after_directive, Arg, string,
  number_arg, character, directive, vsprintk_from, vsprintk,
}
use native.Mathlib.Nat.{pow-le-pow_left}

-- A piece of a format with its argument: plain text, "%s", "%d", "%x", "%c" and "%%".
pub data Piece : Type 0 where
  plain : List ℕ → Piece
  text_of : Option (List ℕ) → Piece
  decimal : ℕ → Piece
  hexadecimal : ℕ → Piece
  byte : ℕ → Piece
  percent : Piece

unfoldable pub fmt_of : List Piece → List ℕ
fmt_of [] = []
fmt_of (plain s ∷ ps) = s ++ fmt_of ps
fmt_of (text_of s ∷ ps) = 37 ∷ 115 ∷ fmt_of ps
fmt_of (decimal v ∷ ps) = 37 ∷ 100 ∷ fmt_of ps
fmt_of (hexadecimal v ∷ ps) = 37 ∷ 120 ∷ fmt_of ps
fmt_of (byte c ∷ ps) = 37 ∷ 99 ∷ fmt_of ps
fmt_of (percent ∷ ps) = 37 ∷ 37 ∷ fmt_of ps

unfoldable pub args_of : List Piece → List Arg
args_of [] = []
args_of (plain s ∷ ps) = args_of ps
args_of (text_of s ∷ ps) = string s ∷ args_of ps
args_of (decimal v ∷ ps) = number_arg v ∷ args_of ps
args_of (hexadecimal v ∷ ps) = number_arg v ∷ args_of ps
args_of (byte c ∷ ps) = character c ∷ args_of ps
args_of (percent ∷ ps) = args_of ps

-- Plain text has no '%' and no 0, and numbers are of 64 bits.
unfoldable pub IsPiece : Piece → Type 0
IsPiece (plain s) = All (λ c. (¬ (c ≡ 0)) × (¬ (c ≡ 37))) s
IsPiece (text_of s) = Unit
IsPiece (decimal v) = v < 2 ^ 64
IsPiece (hexadecimal v) = v < 2 ^ 64
IsPiece (byte c) = Unit
IsPiece percent = Unit

-- What a piece prints: a number is one or more digits that write it.
unfoldable pub Renders : Piece → List ℕ → Type 0
Renders (plain s) out = out ≡ s
Renders (text_of none) out = out ≡ codes "(null)"
Renders (text_of (some s)) out = out ≡ text s
Renders (decimal v) out = Writes 10 v out
Renders (hexadecimal v) out = Writes 16 v out
Renders (byte c) out = out ≡ c % 256 ∷ []
Renders percent out = out ≡ 37 ∷ []

unfoldable pub RendersAll : List Piece → List ℕ → Type 0
RendersAll [] out = out ≡ []
RendersAll (p ∷ ps) out =
    (first : List ℕ) × (rest : List ℕ) × (out ≡ first ++ rest)
    × Renders p first
    × RendersAll ps rest

module _ (buf : List ℕ) (room : length buf ≡ 64) where
  plain_step :
      (c : ℕ) (cs : List ℕ) (args : List Arg)
      → ¬ (c ≡ 0)
      → ¬ (c ≡ 37)
      → vsprintk buf (c ∷ cs) args ≡ before (c ∷ []) (vsprintk buf cs args)
  unfolding vsprintk_from before
  plain_step c [] args some_byte no_percent = ground arith
  plain_step c (d ∷ cs) args some_byte no_percent = ground arith

  plain_steps :
      (s cs rest : List ℕ) (args : List Arg)
      → All (λ c. (¬ (c ≡ 0)) × (¬ (c ≡ 37))) s
      → vsprintk buf cs args ≡ some rest
      → vsprintk buf (s ++ cs) args ≡ some (s ++ rest)
  unfolding before
  plain_steps [] cs rest args is runs = runs
  plain_steps (c ∷ s) cs rest args ((some_byte, no_percent), is) runs =
      plain_step c (s ++ cs) args some_byte no_percent
      ∙ ap (before (c ∷ [])) (plain_steps s cs rest args is runs)

  -- A directive and its output.
  directive_step :
      (d : ℕ) (cs out rest : List ℕ) (args left : List Arg)
      → ¬ (d ≡ 0)
      → directive buf d args ≡ some (out, left)
      → vsprintk buf cs left ≡ some rest
      → vsprintk buf (37 ∷ d ∷ cs) args ≡ some (out ++ rest)
  unfolding vsprintk_from after_directive before
  directive_step d cs out rest args left some_byte does runs =
      let goes_on : (d == 0) ≡ false = ground arith in rw (goes_on, does, runs) refl

  number_step :
      (v base : ℕ) (left : List Arg)
      → 10 ≤ base
      → base ≤ 36
      → v < 2 ^ 64
      → (out : List ℕ) × (print_number buf base (number_arg v ∷ left) ≡ some (out, left))
        × Writes base v out
  unfolding print_number printed
  number_step v base left least most small =
      let (str, runs, reads) =
        itoa_lem base (omega arith) most v 20 buf (omega arith) (omega arith)
          (let wide = pow-le-pow_left least 20 in omega arith) (rw room (omega arith)) in
      (text str, rw runs refl, reads)

  -- One piece before others.
  piece_step :
      (p : Piece) (ps : List Piece) (rest : List ℕ)
      → IsPiece p
      → vsprintk buf (fmt_of ps) (args_of ps) ≡ some rest
      → (first : List ℕ) × (vsprintk buf (fmt_of (p ∷ ps)) (args_of (p ∷ ps))
          ≡ some (first ++ rest))
        × Renders p first
  unfolding fmt_of args_of IsPiece Renders directive print_string print_character
  piece_step (plain s) ps rest is runs =
      (s, plain_steps s (fmt_of ps) rest (args_of ps) is runs, refl)
  piece_step (text_of none) ps rest is runs = (
    codes "(null)",
    directive_step 115 (fmt_of ps) _ rest _ (args_of ps) (omega arith) refl runs,
    refl,
  )
  piece_step (text_of (some s)) ps rest is runs =
      (text s, directive_step 115 (fmt_of ps) _ rest _ (args_of ps) (omega arith) refl runs, refl)
  piece_step (decimal v) ps rest is runs =
      let (out, prints, reads) = number_step v 10 (args_of ps) (omega arith) (omega arith) is in
      (out, directive_step 100 (fmt_of ps) out rest _ (args_of ps) (omega arith) prints runs, reads)
  piece_step (hexadecimal v) ps rest is runs =
      let (out, prints, reads) = number_step v 16 (args_of ps) (omega arith) (omega arith) is in
      (out, directive_step 120 (fmt_of ps) out rest _ (args_of ps) (omega arith) prints runs, reads)
  piece_step (byte c) ps rest is runs = (
    c % 256 ∷ [],
    directive_step 99 (fmt_of ps) _ rest _ (args_of ps) (omega arith) refl runs,
    refl,
  )
  piece_step percent ps rest is runs =
      (37 ∷ [], directive_step 37 (fmt_of ps) _ rest _ (args_of ps) (omega arith) refl runs, refl)

-- vsprintk of a format put together from plain text, "%s", "%d", "%x", "%c" and "%%", with the arguments of these in order: it writes the output of each piece, one behind the other, where the output of a number of 64 bits is of one or more digits and nothing else, with no leading '0' but for a single digit, which write the number to base 10 or 16.
pub vsprintk_lem :
    (buf : List ℕ) (ps : List Piece)
    → length buf ≡ 64
    → All IsPiece ps
    → (out : List ℕ) × (vsprintk buf (fmt_of ps) (args_of ps) ≡ some out) × RendersAll ps out
unfolding RendersAll fmt_of args_of vsprintk_from
vsprintk_lem buf [] room is = ([], refl, refl)
vsprintk_lem buf (p ∷ ps) room (is_p, is) =
    let (rest, runs, renders) = vsprintk_lem buf ps room is in
    let (first, prints, shows) = piece_step buf room p ps rest is_p runs in
    (first ++ rest, prints, (first, rest, refl, shows, renders))
