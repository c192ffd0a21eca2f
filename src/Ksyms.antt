-- ===== src/Ksyms.antt =====
-- kernel/sched/ksyms.c: the table of kernel symbols and the search in it. A name is the list of bytes from
-- its pointer on.
use ly_system_os.Prelude.{
  ℕ, ◌≡◌, refl, ◌≢◌, inl, inr, List, [], ◌∷◌, ◌++◌, if◌then◌else◌, Bool-cases,
}
use ly_system_os.Prelude.Int.{pos, ◌==ℤ◌, ==ℤ-eq}
use ly_system_os.CString.{text, strcmp}
use ly_system_os.CString.Compare.{strcmp_lem}
use ly_system_os.CString.Memory.{memcpy, memset}

-- The table up to its end, with the addresses that the linker gives the functions.
unfoldable pub ksyms : ℕ → ℕ → ℕ → List (List ℕ × ℕ)
ksyms printk memset memcpy =
    (112 ∷ 114 ∷ 105 ∷ 110 ∷ 116 ∷ 107 ∷ 0 ∷ [], printk)
    ∷ (109 ∷ 101 ∷ 109 ∷ 115 ∷ 101 ∷ 116 ∷ 0 ∷ [], memset)
    ∷ (109 ∷ 101 ∷ 109 ∷ 99 ∷ 112 ∷ 121 ∷ 0 ∷ [], memcpy)
    ∷ []

-- `find_ksym`
unfoldable pub find_ksym : List (List ℕ × ℕ) → List ℕ → ℕ
find_ksym [] name = 0
find_ksym ((symbol, addr) ∷ rest) name =
    let found = find_ksym rest name in if strcmp symbol name ==ℤ pos 0 then addr else found

-- A name that no symbol of the table has.
unfoldable pub Missing : List (List ℕ × ℕ) → List ℕ → Type 0
Missing [] name = Unit {0}
Missing ((symbol, addr) ∷ rest) name = (text symbol ≢ text name) × Missing rest name

-- Behind symbols of other names, the search finds the first one of its name.
pub find_ksym-found :
    (before rest : List (List ℕ × ℕ)) (symbol name : List ℕ) (addr : ℕ)
    → Missing before name
    → text symbol ≡ text name
    → find_ksym (before ++ (symbol, addr) ∷ rest) name ≡ addr
unfolding find_ksym Missing
find_ksym-found [] rest symbol name addr missing same =
    let e = (strcmp_lem symbol name).1 same in rw e refl
find_ksym-found ((other, x) ∷ before) rest symbol name addr (ne, missing) same =
    elim (Bool-cases (strcmp other name ==ℤ pos 0)) [
      | inl e ↦ absurd (ne ((strcmp_lem other name).0 (==ℤ-eq _ _ e)))
      | inr e ↦ rw e (find_ksym-found before rest symbol name addr missing same)
    ]

-- A name that is not in the table gives 0.
pub find_ksym-Missing :
    (table : List (List ℕ × ℕ)) (name : List ℕ) → Missing table name → find_ksym table name ≡ 0
unfolding find_ksym Missing
find_ksym-Missing [] name missing = refl
find_ksym-Missing ((symbol, addr) ∷ rest) name (ne, missing) =
    elim (Bool-cases (strcmp symbol name ==ℤ pos 0)) [
      | inl e ↦ absurd (ne ((strcmp_lem symbol name).0 (==ℤ-eq _ _ e)))
      | inr e ↦ rw e (find_ksym-Missing rest name missing)
    ]
