-- ===== src/Prisma/Memory.antt =====
-- A client over plain lists, which keeps all the promises: `findMany` answers in the order of the
-- table, and sorting is by insertion.
use judge.Base.{
  String, ◌≡◌, refl, Bool, true, not, List, [], ◌∷◌, map, filter, every, any, count, sort,
  sort-perm, sort-IsSorted, arith, str_eq, eq_iff, if◌then◌else◌,
}
use mathlib.Core.List.Permᴰ
use judge.Prisma.{Prisma}

module _ {R : Type 0} where
  unfoldable pub first_of_each : (R → String) → List R → List R
  first_of_each key [] = []
  first_of_each key (r ∷ rows) =
      r ∷ filter (λ x. not (str_eq (key x) (key r))) (first_of_each key rows)

  pub count-others :
      (key : R → String) (r : R) (k : String) (rows : List R)
      → count (λ x. str_eq (key x) k) (filter (λ x. not (str_eq (key x) (key r))) rows)
        ≡ (if str_eq (key r) k then 0 else count (λ x. str_eq (key x) k) rows)
  count-others key r k [] = ground arith
  count-others key r k (x ∷ rows) =
      ground (
        arith,
        count-others key r k rows,
        eq_iff (key x) (key r),
        eq_iff (key r) k,
        eq_iff (key x) k,
      )

  pub first_of_each_once :
      (key : R → String) (k : String) (rows : List R)
      → count (λ r. str_eq (key r) k) (first_of_each key rows)
        ≡ (if any (λ r. str_eq (key r) k) rows then 1 else 0)
  unfolding first_of_each
  first_of_each_once key k [] = refl
  first_of_each_once key k (r ∷ rows) =
      ground (arith, count-others key r k (first_of_each key rows), first_of_each_once key k rows)

  pub every-others :
      (p q : R → Bool) (rows : List R) → every p rows ≡ true → every p (filter q rows) ≡ true
  every-others p q [] h = refl
  every-others p q (x ∷ rows) h = ground (arith, every-others p q rows)

  pub first_of_each-every :
      (key : R → String) (p : R → Bool) (rows : List R)
      → every p rows ≡ true
      → every p (first_of_each key rows) ≡ true
  unfolding first_of_each
  first_of_each-every key p [] h = refl
  first_of_each-every key p (r ∷ rows) h = ground (
    arith,
    first_of_each-every key p rows,
    every-others p (λ x. not (str_eq (key x) (key r))) (first_of_each key rows),
  )

unfoldable pub memory : Prisma
unfolding first_of_each
memory = record {
  find_many = filter;
  order_by = sort;
  distinct = first_of_each;
  insert = ◌∷◌;
  modify = λ w f rows. map (λ r. if w r then f r else r) rows;
  remove = λ w rows. filter (λ r. not (w r)) rows;
  find_many_perm = λ w rows. Permᴰ.refl (filter w rows);
  order_by_perm = sort-perm;
  order_by_sorted = sort-IsSorted;
  distinct_once = first_of_each_once;
  distinct_every = first_of_each-every;
  insert_perm = λ r rows. Permᴰ.refl (r ∷ rows);
  modify_perm = λ w f rows. Permᴰ.refl (map (λ r. if w r then f r else r) rows);
  remove_perm = λ w rows. Permᴰ.refl (filter (λ r. not (w r)) rows);
}
