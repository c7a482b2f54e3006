-- ===== src/AdminForm/Orders.antt =====
-- The orders of the test cases of a form.
use judge.Base.{
  ℕ, zero, suc, ◌+◌, ◌-◌, ◌<◌, Bool, false, List, [], ◌∷◌, ◌++◌, length, ◌≡◌, refl, ◌∙◌, All, arith,
  count, ◌==◌,
}
use judge.Schema.{pos, negsuc}
use judge.Admin.Data.{CaseData}
use judge.AdminForm.{Form, Edit, edit, set_row, remove_row}

-- The orders of the cases count up from `n`.
abbrev pub CountsFrom : ℕ → List CaseData → Type 0
CountsFrom n [] = Unit
CountsFrom n (t ∷ ts) = (t.order ≡ pos n) × CountsFrom (suc n) ts

-- The edit takes no test case away.
abbrev pub IsKeeping : Edit → Type 0
IsKeeping (Edit.remove_case i) = ⊥
IsKeeping _ = Unit

abbrev KeepsOrder : (CaseData → CaseData) → Type 0
KeepsOrder g = (t : CaseData) → (g t).order ≡ t.order

CountsFrom-set_row :
    (g : CaseData → CaseData)
    → KeepsOrder g
    → (i n : ℕ) (ts : List CaseData) → CountsFrom n ts
    → CountsFrom n (set_row i g ts)
unfolding set_row
CountsFrom-set_row g k i n [] h = tt
CountsFrom-set_row g k zero n (t ∷ ts) (h, hs) = (k t ∙ h, hs)
CountsFrom-set_row g k (suc i) n (t ∷ ts) (h, hs) = (h, CountsFrom-set_row g k i (suc n) ts hs)

CountsFrom-append :
    (n m : ℕ) (ts : List CaseData) (t : CaseData)
    → n + length ts ≡ m
    → CountsFrom n ts
    → t.order ≡ pos m
    → CountsFrom n (ts ++ t ∷ [])
CountsFrom-append n m [] t e h o = (ground (arith, o, e), tt)
CountsFrom-append n m (u ∷ ts) t e (h, hs) o =
    (h, CountsFrom-append (suc n) m ts t (omega arith) hs o)

edit-CountsFrom :
    (e : Edit) (f : Form)
    → IsKeeping e
    → CountsFrom 0 f.test_cases
    → CountsFrom 0 (edit e f).test_cases
unfolding edit
edit-CountsFrom Edit.add_case f k h =
    CountsFrom-append 0 (length f.test_cases) f.test_cases _ (omega arith) h refl
edit-CountsFrom (Edit.case_input i v) f k h = CountsFrom-set_row _ (λ t. refl) i 0 f.test_cases h
edit-CountsFrom (Edit.case_expected i v) f k h = CountsFrom-set_row _ (λ t. refl) i 0 f.test_cases h
edit-CountsFrom (Edit.case_sample i b) f k h = CountsFrom-set_row _ (λ t. refl) i 0 f.test_cases h
edit-CountsFrom (Edit.remove_case i) f k h = elim k [ ]
edit-CountsFrom _ f k h = h

-- The form after the edits of a list.
abbrev pub edited : List Edit → Form → Form
edited [] f = f
edited (e ∷ es) f = edited es (edit e f)

-- On a form that starts empty, or whose test cases are numbered from 0 on, every sequence of edits
-- that removes no test case leaves the test cases numbered from 0 on, in their order.
pub edited-CountsFrom :
    (es : List Edit) (f : Form)
    → All IsKeeping es
    → CountsFrom 0 f.test_cases
    → CountsFrom 0 (edited es f).test_cases
edited-CountsFrom [] f ks h = h
edited-CountsFrom (e ∷ es) f (k, ks) h =
    edited-CountsFrom es (edit e f) ks (edit-CountsFrom e f k h)

abbrev pub has_order : ℕ → CaseData → Bool
has_order n t = elim t.order [ pos m ↦ m == n | negsuc m ↦ false ]

count_last :
    (n m : ℕ) (ts : List CaseData)
    → CountsFrom n ts
    → n + length ts ≡ suc m
    → 0 < length ts
    → count (has_order m) ts ≡ 1
count_last n m [] h e p = absurd (omega arith)
count_last n m (t ∷ []) (h, hs) e p = ground (arith, h, e)
count_last n m (t ∷ u ∷ ts) (h, hs) e p =
    ground (arith, h, e, count_last (suc n) m (u ∷ ts) hs (omega arith) (omega arith))

count_last_kept :
    (i n m : ℕ) (ts : List CaseData)
    → CountsFrom n ts
    → n + length ts ≡ suc m
    → suc i < length ts
    → count (has_order m) (remove_row i ts) ≡ 1
unfolding remove_row
count_last_kept i n m [] h e p = absurd (omega arith)
count_last_kept zero n m (t ∷ ts) (h, hs) e p =
    count_last (suc n) m ts hs (omega arith) (omega arith)
count_last_kept (suc i) n m (t ∷ ts) (h, hs) e p =
    ground (arith, h, e, count_last_kept i (suc n) m ts hs (omega arith) (omega arith))

length-remove_row :
    (i : ℕ) (ts : List CaseData) → i < length ts → suc (length (remove_row i ts)) ≡ length ts
unfolding remove_row
length-remove_row i [] h = absurd (omega arith)
length-remove_row zero (t ∷ ts) h = refl
length-remove_row (suc i) (t ∷ ts) h = omega (arith, length-remove_row i ts)

count-append :
    (q : CaseData → Bool) (ts us : List CaseData) → count q (ts ++ us) ≡ count q ts + count q us
count-append q [] us = omega arith
count-append q (t ∷ ts) us = omega (arith, count-append q ts us)

-- Where the test cases are numbered from 0 on and one before the last is removed, the next one that
-- is added gets the number that the last one has: two test cases have that number.
pub removed_then_added :
    (f : Form) (i : ℕ)
    → CountsFrom 0 f.test_cases
    → suc i < length f.test_cases
    → count
        (has_order (length f.test_cases - 1))
        (edit Edit.add_case (edit (Edit.remove_case i) f)).test_cases
      ≡ 2
unfolding edit
removed_then_added f i h p =
    let e : length (remove_row i f.test_cases) ≡ length f.test_cases - 1 =
      omega (arith, length-remove_row i f.test_cases) in
    count-append (has_order (length f.test_cases - 1)) (remove_row i f.test_cases) _
    ∙ ground
        (arith, e, count_last_kept i 0 (length f.test_cases - 1) f.test_cases h (omega arith) p)
