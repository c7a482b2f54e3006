-- ===== src/Base/Arrange.antt =====
-- What a fold, a count, a maximum and a sum keep when a list is rearranged.
use Prim.Native.Nat.{ℕ, suc, ◌+◌, max}
use mathlib.Core.Path.{◌≡◌, refl, sym, ap, ◌∙◌}
use mathlib.Core.Bool.{Bool, true, false, ◌&&◌, ◌||◌}
use mathlib.Core.List.{List, [], ◌∷◌, map, Permᴰ}
use native.Mathlib.Omega.{arith}
use mathlib.Core.List.Permᴰ
use mathlib.Core.Logic.{inl, inr}
use judge.Base.Tests.{if◌then◌else◌, Bool-cases}
use judge.Base.Lists.{length, filter, every, any, count, max_of, sum_of}

and_swap : (a b c : Bool) → (a && (b && c)) ≡ (b && (a && c))
and_swap a b c = ground arith

or_swap : (a b c : Bool) → (a || (b || c)) ≡ (b || (a || c))
or_swap a b c = ground arith

module _ {ℓ} {A : Type ℓ} where
  -- A fold of steps that commute.
  fold {κ} : {B : Type κ} → (A → B → B) → B → List A → B
  fold f b [] = b
  fold f b (x ∷ xs) = f x (fold f b xs)

  fold-perm {κ} :
      {B : Type κ} (f : A → B → B) (b : B)
      → ((x y : A) (c : B) → f x (f y c) ≡ f y (f x c))
      → {xs ys : List A} → Permᴰ xs ys
      → fold f b xs ≡ fold f b ys
  unfolding fold
  fold-perm f b comm Permᴰ.nil = refl
  fold-perm f b comm (Permᴰ.cons e p) = λ i. f (e i) (fold-perm f b comm p i)
  fold-perm f b comm (Permᴰ.swap {a = x} {b = y} {l = l} e d) =
      comm x y (fold f b l) ∙ (λ i. f (d i) (f (e i) (fold f b l)))
  fold-perm f b comm (Permᴰ.trans p q) = fold-perm f b comm p ∙ fold-perm f b comm q

  count-fold :
      (p : A → Bool) (xs : List A) → count p xs ≡ fold (λ x n. (if p x then 1 else 0) + n) 0 xs
  unfolding fold
  count-fold p [] = refl
  count-fold p (x ∷ xs) = rw (count-fold p xs)

  pub count-perm : (p : A → Bool) {xs ys : List A} → Permᴰ xs ys → count p xs ≡ count p ys
  count-perm p {xs} {ys} h =
      rw (count-fold p xs, count-fold p ys) (fold-perm _ 0 (λ x y c. omega arith) h)

  sum_of-fold : (f : A → ℕ) (xs : List A) → sum_of f xs ≡ fold (λ x n. f x + n) 0 xs
  unfolding fold
  sum_of-fold f [] = refl
  sum_of-fold f (x ∷ xs) = rw (sum_of-fold f xs)

  pub sum_of-perm : (f : A → ℕ) {xs ys : List A} → Permᴰ xs ys → sum_of f xs ≡ sum_of f ys
  sum_of-perm f {xs} {ys} h =
      rw (sum_of-fold f xs, sum_of-fold f ys) (fold-perm _ 0 (λ x y c. omega arith) h)

  max_of-fold : (f : A → ℕ) (xs : List A) → max_of f xs ≡ fold (λ x n. max (f x) n) 0 xs
  unfolding fold
  max_of-fold f [] = refl
  max_of-fold f (x ∷ xs) = rw (max_of-fold f xs)

  pub max_of-perm : (f : A → ℕ) {xs ys : List A} → Permᴰ xs ys → max_of f xs ≡ max_of f ys
  max_of-perm f {xs} {ys} h =
      rw (max_of-fold f xs, max_of-fold f ys) (fold-perm _ 0 (λ x y c. omega arith) h)

  every-fold : (p : A → Bool) (xs : List A) → every p xs ≡ fold (λ x b. p x && b) true xs
  unfolding fold
  every-fold p [] = refl
  every-fold p (x ∷ xs) = rw (every-fold p xs)

  pub every-perm : (p : A → Bool) {xs ys : List A} → Permᴰ xs ys → every p xs ≡ every p ys
  every-perm p {xs} {ys} h =
      rw (every-fold p xs, every-fold p ys) (fold-perm _ true (λ x y c. and_swap (p x) (p y) c) h)

  any-fold : (p : A → Bool) (xs : List A) → any p xs ≡ fold (λ x b. p x || b) false xs
  unfolding fold
  any-fold p [] = refl
  any-fold p (x ∷ xs) = rw (any-fold p xs)

  pub any-perm : (p : A → Bool) {xs ys : List A} → Permᴰ xs ys → any p xs ≡ any p ys
  any-perm p {xs} {ys} h =
      rw (any-fold p xs, any-fold p ys) (fold-perm _ false (λ x y c. or_swap (p x) (p y) c) h)

  length-fold : (xs : List A) → length xs ≡ fold (λ x n. suc n) 0 xs
  unfolding fold
  length-fold [] = refl
  length-fold (x ∷ xs) = rw (length-fold xs)

  pub length-perm : {xs ys : List A} → Permᴰ xs ys → length xs ≡ length ys
  length-perm {xs} {ys} h = rw (length-fold xs, length-fold ys) (fold-perm _ 0 (λ x y c. refl) h)

module _ {ℓ} {A : Type ℓ} (q : A → Bool) where
  filter_head :
      (a b : A) {xs ys : List A}
      → a ≡ b
      → Permᴰ xs ys
      → Permᴰ (if q a then a ∷ xs else xs) (if q b then b ∷ ys else ys)
  filter_head a b e p = elim (Bool-cases (q a)) [
    | inl h ↦ rw (h, sym (ap q e) ∙ h) (Permᴰ.cons e p)
    | inr h ↦ rw (h, sym (ap q e) ∙ h) p
  ]

  filter_swap :
      (a b a' b' : A) (xs : List A)
      → a ≡ b'
      → b ≡ a'
      → Permᴰ (filter q (a ∷ b ∷ xs)) (filter q (a' ∷ b' ∷ xs))
  filter_swap a b a' b' xs e d = elim (Bool-cases (q a)) [
    | inl h ↦ elim (Bool-cases (q b)) [
      | inl k ↦ rw (h, k, sym (ap q e) ∙ h, sym (ap q d) ∙ k) (Permᴰ.swap e d)
      | inr k ↦ rw (h, k, sym (ap q e) ∙ h, sym (ap q d) ∙ k) (Permᴰ.cons e (Permᴰ.refl _))
    ]
    | inr h ↦ elim (Bool-cases (q b)) [
      | inl k ↦ rw (h, k, sym (ap q e) ∙ h, sym (ap q d) ∙ k) (Permᴰ.cons d (Permᴰ.refl _))
      | inr k ↦ rw (h, k, sym (ap q e) ∙ h, sym (ap q d) ∙ k) (Permᴰ.refl _)
    ]
  ]

  pub filter-perm : {xs ys : List A} → Permᴰ xs ys → Permᴰ (filter q xs) (filter q ys)
  filter-perm Permᴰ.nil = Permᴰ.nil
  filter-perm (Permᴰ.cons {a = a} {b = b} e p) = filter_head a b e (filter-perm p)
  filter-perm (Permᴰ.swap {a = a} {b = b} {a' = a'} {b' = b'} {l = l} e d) =
      filter_swap a b a' b' l e d
  filter-perm (Permᴰ.trans p r) = Permᴰ.trans (filter-perm p) (filter-perm r)

module _ {ℓ κ} {A : Type ℓ} {B : Type κ} where
  pub map-perm : (f : A → B) {xs ys : List A} → Permᴰ xs ys → Permᴰ (map f xs) (map f ys)
  map-perm f Permᴰ.nil = Permᴰ.nil
  map-perm f (Permᴰ.cons e p) = Permᴰ.cons (ap f e) (map-perm f p)
  map-perm f (Permᴰ.swap e d) = Permᴰ.swap (ap f e) (ap f d)
  map-perm f (Permᴰ.trans p q) = Permᴰ.trans (map-perm f p) (map-perm f q)
