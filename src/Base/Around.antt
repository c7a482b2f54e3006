-- ===== src/Base/Around.antt =====
-- A list around one of its elements: `before ++ x ∷ after` against `before ++ after`.
use Prim.Native.Nat.{ℕ, ◌+◌}
use mathlib.Core.Path.{◌≡◌, refl}
use mathlib.Core.Bool.{Bool, ◌&&◌, ◌||◌}
use mathlib.Core.List.{List, [], ◌∷◌, ◌++◌}
use native.Mathlib.Omega.{arith}
use judge.Base.Tests.{if◌then◌else◌}
use judge.Base.Lists.{All, any, every, count, sum_of}

module _ {ℓ} {A : Type ℓ} where
  pub count-around :
      (p : A → Bool) (x : A) (before after : List A)
      → count p (before ++ x ∷ after) ≡ (if p x then 1 else 0) + count p (before ++ after)
  count-around p x [] after = refl
  count-around p x (b ∷ before) after = omega (arith, count-around p x before after)

  pub every-around :
      (p : A → Bool) (x : A) (before after : List A)
      → every p (before ++ x ∷ after) ≡ (p x && every p (before ++ after))
  every-around p x [] after = refl
  every-around p x (b ∷ before) after = ground (arith, every-around p x before after)

  pub any-around :
      (p : A → Bool) (x : A) (before after : List A)
      → any p (before ++ x ∷ after) ≡ (p x || any p (before ++ after))
  any-around p x [] after = refl
  any-around p x (b ∷ before) after = ground (arith, any-around p x before after)

  pub sum_of-around :
      (f : A → ℕ) (x : A) (before after : List A)
      → sum_of f (before ++ x ∷ after) ≡ f x + sum_of f (before ++ after)
  sum_of-around f x [] after = refl
  sum_of-around f x (b ∷ before) after = omega (arith, sum_of-around f x before after)

module _ {ℓ κ} {A : Type ℓ} (P : A → Type κ) where
  -- The parts of what holds of all elements, and back.
  pub All-without :
      (x : A) (before after : List A) → All P (before ++ x ∷ after) → P x × All P (before ++ after)
  All-without x [] after h = h
  All-without x (b ∷ before) after (h, hs) =
      let (here, rest) = All-without x before after hs in (here, (h, rest))

  pub All-with :
      (x : A) (before after : List A) → P x → All P (before ++ after) → All P (before ++ x ∷ after)
  All-with x [] after p hs = (p, hs)
  All-with x (b ∷ before) after p (h, hs) = (h, All-with x before after p hs)
