-- ===== src/Base/Counting.antt =====
-- Counts, tests and filters over one another.
use Prim.Native.Nat.{ℕ, ◌≤◌, ◌<◌}
use mathlib.Core.Path.{◌≡◌, refl}
use mathlib.Core.Bool.{Bool, true, false, not, ◌&&◌, ◌||◌}
use mathlib.Core.List.{List, [], ◌∷◌, map}
use native.Mathlib.Omega.{arith}
use judge.Base.Lists.{length, filter, every, any, count, sum_of}

module _ {ℓ} {A : Type ℓ} where
  pub count-filter :
      (p q : A → Bool) (xs : List A) → count q (filter p xs) ≡ count (λ x. p x && q x) xs
  count-filter p q [] = refl
  count-filter p q (x ∷ xs) = ground (arith, count-filter p q xs)

  pub every-filter_iff :
      (p q : A → Bool) (xs : List A) → every q (filter p xs) ≡ every (λ x. not (p x) || q x) xs
  every-filter_iff p q [] = refl
  every-filter_iff p q (x ∷ xs) = ground (arith, every-filter_iff p q xs)

  pub any-filter : (p q : A → Bool) (xs : List A) → any q (filter p xs) ≡ any (λ x. p x && q x) xs
  any-filter p q [] = refl
  any-filter p q (x ∷ xs) = ground (arith, any-filter p q xs)

  pub count-le-length : (p : A → Bool) (xs : List A) → count p xs ≤ length xs
  count-le-length p [] = omega arith
  count-le-length p (x ∷ xs) = ground (arith, count-le-length p xs)

  pub any_of_count : (p : A → Bool) (xs : List A) → 0 < count p xs → any p xs ≡ true
  any_of_count p (x ∷ xs) h = ground (arith, any_of_count p xs)
  any_of_count p [] h = absurd (omega arith)

  pub count_none : (p : A → Bool) (xs : List A) → any p xs ≡ false → count p xs ≡ 0
  count_none p [] h = refl
  count_none p (x ∷ xs) h = ground (arith, count_none p xs)

  pub count_of_any : (p : A → Bool) (xs : List A) → any p xs ≡ true → 0 < count p xs
  count_of_any p [] h = cc
  count_of_any p (x ∷ xs) h = ground (arith, count_of_any p xs)

  -- No element passes the test, so nothing is asked of those that do.
  pub every_of_none :
      (p q : A → Bool) (xs : List A) → any p xs ≡ false → every (λ x. not (p x) || q x) xs ≡ true
  every_of_none p q [] h = refl
  every_of_none p q (x ∷ xs) h = ground (arith, every_of_none p q xs)

  -- Two tests that every element passes decide a third.
  pub every_both :
      (p q s : A → Bool)
      → ((x : A) → p x ≡ true → q x ≡ true → s x ≡ true)
      → (xs : List A) → every p xs ≡ true
      → every q xs ≡ true
      → every s xs ≡ true
  every_both p q s step [] h k = refl
  every_both p q s step (x ∷ xs) h k = ground (arith, step x, every_both p q s step xs)

module _ {ℓ} {A : Type ℓ} where
  pub every-true : (p : A → Bool) → ((x : A) → p x ≡ true) → (xs : List A) → every p xs ≡ true
  every-true p h [] = refl
  every-true p h (x ∷ xs) = ground (arith, h x, every-true p h xs)

module _ {ℓ κ} {A : Type ℓ} {B : Type κ} where
  pub count-map :
      (f : A → B) (p : B → Bool) (xs : List A) → count p (map f xs) ≡ count (λ x. p (f x)) xs
  count-map f p [] = refl
  count-map f p (x ∷ xs) = ground (arith, count-map f p xs)

  pub every-map :
      (f : A → B) (p : B → Bool) (xs : List A) → every p (map f xs) ≡ every (λ x. p (f x)) xs
  every-map f p [] = refl
  every-map f p (x ∷ xs) = ground (arith, every-map f p xs)

  pub sum_of-map :
      (f : A → B) (g : B → ℕ) (xs : List A) → sum_of g (map f xs) ≡ sum_of (λ x. g (f x)) xs
  sum_of-map f g [] = refl
  sum_of-map f g (x ∷ xs) = rw (sum_of-map f g xs)
