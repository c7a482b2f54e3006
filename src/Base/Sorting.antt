-- ===== src/Base/Sorting.antt =====
-- Sorting: JavaScript's `sort` and the client's `orderBy`, and the first `n` of a sorted list.
use Prim.Native.Nat.{ℕ, zero, suc, ◌≤◌}
use mathlib.Core.Path.{◌≡◌, refl, sym, subst, ap}
use mathlib.Core.Bool.{Bool, true, false}
use mathlib.Core.List.{List, [], ◌∷◌, ◌++◌, Permᴰ}
use mathlib.Core.List.Permᴰ
use mathlib.Core.Logic.{◌⊎◌, inl, inr}
use native.Mathlib.Omega.{arith}
use judge.Base.Tests.{if◌then◌else◌, Bool-cases, leb}
use judge.Base.Lists.{length, every, take, length-take-le}
use judge.Base.Arrange.{every-perm}

-- An order by which rows can be sorted.
pub record IsOrder {R : Type 0} (le : R → R → Bool) : Type 0 where
  pub total : (a b : R) → le a b ≡ false → le b a ≡ true
  pub trans : (a b c : R) → le a b ≡ true → le b c ≡ true → le a c ≡ true

-- Every row stands in order before all that follow it.
abbrev pub IsSorted : {R : Type 0} → (R → R → Bool) → List R → Type 0
IsSorted le [] = Unit
IsSorted le (r ∷ rows) = (every (le r) rows ≡ true) × IsSorted le rows

module _ {R : Type 0} where
  unfoldable pub place : (R → R → Bool) → R → List R → List R
  place le r [] = r ∷ []
  place le r (x ∷ rows) = if le r x then r ∷ x ∷ rows else x ∷ place le r rows

  unfoldable pub sort : (R → R → Bool) → List R → List R
  unfolding place
  sort le [] = []
  sort le (r ∷ rows) = place le r (sort le rows)

  pub place-perm : (le : R → R → Bool) (r : R) (rows : List R) → Permᴰ (place le r rows) (r ∷ rows)
  unfolding place
  place-perm le r [] = Permᴰ.refl (r ∷ [])
  place-perm le r (x ∷ rows) = elim (Bool-cases (le r x)) [
    | inl e ↦ rw e (Permᴰ.refl (r ∷ x ∷ rows))
    | inr e ↦ rw e (Permᴰ.trans (Permᴰ.cons refl (place-perm le r rows)) (Permᴰ.swap refl refl))
  ]

  pub sort-perm : (le : R → R → Bool) (rows : List R) → Permᴰ (sort le rows) rows
  unfolding sort
  sort-perm le [] = Permᴰ.nil
  sort-perm le (r ∷ rows) =
      Permᴰ.trans (place-perm le r (sort le rows)) (Permᴰ.cons refl (sort-perm le rows))

  pub every_above :
      (le : R → R → Bool)
      → IsOrder le
      → (r x : R) (rows : List R) → le r x ≡ true
      → every (le x) rows ≡ true
      → every (le r) rows ≡ true
  every_above le o r x [] h e = refl
  every_above le o r x (y ∷ rows) h e = ground (arith, o.trans r x y, every_above le o r x rows h)

  pub place-IsSorted :
      (le : R → R → Bool)
      → IsOrder le
      → (r : R) (rows : List R) → IsSorted le rows
      → IsSorted le (place le r rows)
  unfolding place
  place-IsSorted le o r [] h = (refl, tt)
  place-IsSorted le o r (x ∷ rows) (above, h) = elim (Bool-cases (le r x)) [
    | inl e ↦ rw e (rw (e, every_above le o r x rows e above) refl, (above, h))
    | inr e ↦ rw e (
      rw (every-perm (le x) (place-perm le r rows)) (rw (o.total r x e, above) refl),
      place-IsSorted le o r rows h,
    )
  ]

  pub sort-IsSorted : (le : R → R → Bool) (rows : List R) → IsOrder le → IsSorted le (sort le rows)
  unfolding sort
  sort-IsSorted le [] o = tt
  sort-IsSorted le (r ∷ rows) o = place-IsSorted le o r (sort le rows) (sort-IsSorted le rows o)

  pub drop : ℕ → List R → List R
  drop zero rows = rows
  drop (suc n) [] = []
  drop (suc n) (r ∷ rows) = drop n rows

  take-drop : (n : ℕ) (rows : List R) → take n rows ++ drop n rows ≡ rows
  unfolding drop
  take-drop zero rows = refl
  take-drop (suc n) [] = refl
  take-drop (suc n) (r ∷ rows) = ap (λ rest. r ∷ rest) (take-drop n rows)

  every-drop :
      (q : R → Bool) (n : ℕ) (rows : List R) → every q rows ≡ true → every q (drop n rows) ≡ true
  unfolding drop
  every-drop q zero rows h = h
  every-drop q (suc n) [] h = refl
  every-drop q (suc n) (r ∷ rows) h = every-drop q n rows (ground arith)

  pub every-take :
      (q : R → Bool) (n : ℕ) (rows : List R) → every q rows ≡ true → every q (take n rows) ≡ true
  every-take q zero rows h = refl
  every-take q (suc n) [] h = refl
  every-take q (suc n) (r ∷ rows) h = ground (arith, every-take q n rows)

  take-IsSorted :
      (le : R → R → Bool) (n : ℕ) (rows : List R) → IsSorted le rows → IsSorted le (take n rows)
  take-IsSorted le zero rows h = tt
  take-IsSorted le (suc n) [] h = tt
  take-IsSorted le (suc n) (r ∷ rows) (above, h) =
      (every-take (le r) n rows above, take-IsSorted le n rows h)

  take_above :
      (le : R → R → Bool) (n : ℕ) (rows : List R)
      → IsSorted le rows
      → every (λ r. every (le r) (drop n rows)) (take n rows) ≡ true
  unfolding drop
  take_above le zero rows h = refl
  take_above le (suc n) [] h = refl
  take_above le (suc n) (r ∷ rows) (above, h) =
      ground (arith, every-drop (le r) n rows above, take_above le n rows h)

  drop_short : (n : ℕ) (rows : List R) → (drop n rows ≡ []) ⊎ (length (take n rows) ≡ n)
  unfolding drop
  drop_short zero rows = inr refl
  drop_short (suc n) [] = inl refl
  drop_short (suc n) (r ∷ rows) = elim (drop_short n rows) [
    | inl e ↦ inl e
    | inr e ↦ inr (ap suc e)
  ]

-- `found` are the first `n` of the rows in the order: at most `n`, sorted, and what is left out
-- comes after all of them; where something is left out there are `n`.
abbrev pub IsTop : {R : Type 0} → (R → R → Bool) → ℕ → List R → List R → Type 0
IsTop {R} le n rows found =
    (length found ≤ n)
    × IsSorted le found
    × ((rest : List R) × Permᴰ (found ++ rest) rows
        × (every (λ r. every (le r) rest) found ≡ true)
        × ((rest ≡ []) ⊎ (length found ≡ n)))

module _ {R : Type 0} where
  -- Of rows that are sorted, `take` keeps the first.
  pub take-IsTop :
      (le : R → R → Bool) (n : ℕ) (rows sorted : List R)
      → IsSorted le sorted
      → Permᴰ sorted rows
      → IsTop le n rows (take n sorted)
  take-IsTop le n rows sorted h p = (
    length-take-le n sorted,
    take-IsSorted le n sorted h,
    (
      drop n sorted,
      subst (λ all. Permᴰ all rows) (sym (take-drop n sorted)) p,
      take_above le n sorted h,
      drop_short n sorted,
    ),
  )

  -- The greatest key first.
  pub falling-IsOrder : (key : R → ℕ) → IsOrder (λ a b. leb (key b) (key a))
  falling-IsOrder key = record { total = λ a b h. ground arith; trans = λ a b c h k. ground arith }
