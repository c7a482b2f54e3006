-- ===== src/Prisma/Rows.antt =====
-- What the client's promises say of counts, tests and lookups.
use mathlib.Core.List.Permᴰ
use judge.Base.{
  ℕ, IsOrder, IsTop, take-IsTop, take, every-map, sum_of, sum_of-perm, sum_of-map, count_none, none,
  false, Permᴰ, filter, subst, map-perm, filter-perm, Option-cases, inl, inr, count_of_any, ◌+◌,
  ◌≡◌, refl, sym, ◌∙◌, Bool, true, not, ◌&&◌, ◌||◌, List, [], ◌∷◌, none, some, map, every, any,
  count, length, head?, length-filter, count-filter, any-filter, every-filter_iff, count-perm,
  any-perm, every-perm, length-perm, arith, if◌then◌else◌, every-filter,
}
use judge.Prisma.{Prisma, find_first}

module _ ⦃db : Prisma⦄ {R : Type 0} where
  pub count-find_many :
      (w q : R → Bool) (rows : List R)
      → count q (db.find_many w rows) ≡ count (λ r. w r && q r) rows
  count-find_many w q rows = count-perm q (db.find_many_perm w rows) ∙ count-filter w q rows

  pub length-find_many :
      (w : R → Bool) (rows : List R) → length (db.find_many w rows) ≡ count w rows
  length-find_many w rows = length-perm (db.find_many_perm w rows) ∙ length-filter w rows

  pub every-find_many :
      (w q : R → Bool) (rows : List R)
      → every q (db.find_many w rows) ≡ every (λ r. not (w r) || q r) rows
  every-find_many w q rows = every-perm q (db.find_many_perm w rows) ∙ every-filter_iff w q rows

  pub every-find_many_where : (w : R → Bool) (rows : List R) → every w (db.find_many w rows) ≡ true
  every-find_many_where w rows = every-perm w (db.find_many_perm w rows) ∙ every-filter w rows

  pub any-find_many :
      (w q : R → Bool) (rows : List R) → any q (db.find_many w rows) ≡ any (λ r. w r && q r) rows
  any-find_many w q rows = any-perm q (db.find_many_perm w rows) ∙ any-filter w q rows

  pub any-insert :
      (q : R → Bool) (r : R) (rows : List R) → any q (db.insert r rows) ≡ (q r || any q rows)
  any-insert q r rows = any-perm q (db.insert_perm r rows)

  pub count-insert :
      (q : R → Bool) (r : R) (rows : List R)
      → count q (db.insert r rows) ≡ (if q r then 1 else 0) + count q rows
  count-insert q r rows = count-perm q (db.insert_perm r rows)

  count-modified :
      (q w : R → Bool) (f : R → R) (rows : List R)
      → count q (map (λ r. if w r then f r else r) rows)
        ≡ count (λ r. q (if w r then f r else r)) rows
  count-modified q w f [] = refl
  count-modified q w f (r ∷ rows) = ground (arith, count-modified q w f rows)

  pub count-modify :
      (q w : R → Bool) (f : R → R) (rows : List R)
      → count q (db.modify w f rows) ≡ count (λ r. q (if w r then f r else r)) rows
  count-modify q w f rows = count-perm q (db.modify_perm w f rows) ∙ count-modified q w f rows

  pub count-remove :
      (q w : R → Bool) (rows : List R)
      → count q (db.remove w rows) ≡ count (λ r. not (w r) && q r) rows
  count-remove q w rows =
      count-perm q (db.remove_perm w rows) ∙ count-filter (λ r. not (w r)) q rows

  head?-every :
      (w : R → Bool) (rows : List R) {r : R}
      → every w rows ≡ true
      → head? rows ≡ some r
      → w r ≡ true
  head?-every w [] h e = absurd (ground arith)
  head?-every w (x ∷ rows) h e = ground arith

  head?-none : (rows : List R) → head? rows ≡ none → length rows ≡ 0
  head?-none [] e = refl
  head?-none (x ∷ rows) e = absurd (ground arith)

  -- What is found fits the query.
  pub find_first_where :
      (w : R → Bool) (rows : List R) {r : R} → find_first w rows ≡ some r → w r ≡ true
  find_first_where w rows e = head?-every w (db.find_many w rows) (every-find_many_where w rows) e

  -- A query of which every row of the table fails finds nothing, and the other way round.
  pub find_first-none : (w : R → Bool) (rows : List R) → find_first w rows ≡ none → count w rows ≡ 0
  find_first-none w rows e = sym (length-find_many w rows) ∙ head?-none (db.find_many w rows) e

  every-modified :
      (q w : R → Bool) (f : R → R)
      → ((r : R) → w r ≡ true → q r ≡ true → q (f r) ≡ true)
      → (rows : List R) → every q rows ≡ true
      → every q (map (λ r. if w r then f r else r) rows) ≡ true
  every-modified q w f keep [] h = refl
  every-modified q w f keep (r ∷ rows) h = ground (arith, keep r, every-modified q w f keep rows)

  -- A test that an update keeps still passes on every row.
  pub every-modify :
      (q w : R → Bool) (f : R → R) (rows : List R)
      → ((r : R) → w r ≡ true → q r ≡ true → q (f r) ≡ true)
      → every q rows ≡ true
      → every q (db.modify w f rows) ≡ true
  every-modify q w f rows keep h =
      every-perm q (db.modify_perm w f rows) ∙ every-modified q w f keep rows h

  every_updated :
      (q w : R → Bool) (f : R → R)
      → ((r : R) → q (f r) ≡ true)
      → (rows : List R)
      → every (λ r. not (w r) || q r) (map (λ r. if w r then f r else r) rows) ≡ true
  every_updated q w f set [] = refl
  every_updated q w f set (r ∷ rows) = ground (arith, set r, every_updated q w f set rows)

  -- What an update writes holds of every row that fits its `where`.
  pub every-modify_where :
      (q w : R → Bool) (f : R → R) (rows : List R)
      → ((r : R) → q (f r) ≡ true)
      → every (λ r. not (w r) || q r) (db.modify w f rows) ≡ true
  every-modify_where q w f rows set =
      every-perm (λ r. not (w r) || q r) (db.modify_perm w f rows) ∙ every_updated q w f set rows

  any-modified :
      (q w : R → Bool) (f : R → R)
      → ((r : R) → q (f r) ≡ q r)
      → (rows : List R) → any q (map (λ r. if w r then f r else r) rows) ≡ any q rows
  any-modified q w f keep [] = refl
  any-modified q w f keep (r ∷ rows) = ground (arith, keep r, any-modified q w f keep rows)

  -- An update that a test does not see.
  pub any-modify :
      (q w : R → Bool) (f : R → R) (rows : List R)
      → ((r : R) → q (f r) ≡ q r)
      → any q (db.modify w f rows) ≡ any q rows
  any-modify q w f rows keep = any-perm q (db.modify_perm w f rows) ∙ any-modified q w f keep rows

  every_weaken :
      (w q : R → Bool) (rows : List R)
      → every q rows ≡ true
      → every (λ r. not (w r) || q r) rows ≡ true
  every_weaken w q [] h = refl
  every_weaken w q (r ∷ rows) h = ground (arith, every_weaken w q rows)

  -- What holds of every row holds of the one that is found.
  pub find_first-every :
      (w q : R → Bool) (rows : List R) {r : R}
      → every q rows ≡ true
      → find_first w rows ≡ some r
      → q r ≡ true
  find_first-every w q rows h e =
      head?-every q (db.find_many w rows) (every-find_many w q rows ∙ every_weaken w q rows h) e

  -- A row that fits is found.
  pub find_first_of_any :
      (w : R → Bool) (rows : List R) → any w rows ≡ true → (r : R) × (find_first w rows ≡ some r)
  find_first_of_any w rows h = elim (Option-cases (find_first w rows)) [
    | inl e ↦ absurd (omega (arith, count_of_any w rows h, find_first-none w rows e))
    | inr found ↦ found
  ]

  head?_empty : (rows : List R) → length rows ≡ 0 → head? rows ≡ none
  head?_empty [] h = refl
  head?_empty (r ∷ rows) h = absurd (omega arith)

  -- Where no row fits, nothing is found.
  pub find_first_absent :
      (w : R → Bool) (rows : List R) → any w rows ≡ false → find_first w rows ≡ none
  find_first_absent w rows h =
      head?_empty (db.find_many w rows) (length-find_many w rows ∙ count_none w rows h)

  pub every-insert :
      (q : R → Bool) (r : R) (rows : List R) → every q (db.insert r rows) ≡ (q r && every q rows)
  every-insert q r rows = every-perm q (db.insert_perm r rows)

  -- `findMany` with `orderBy` and `take`
  pub find_many-IsTop :
      (le : R → R → Bool) (n : ℕ) (w : R → Bool) (rows : List R)
      → IsOrder le
      → IsTop le n (filter w rows) (take n (db.order_by le (db.find_many w rows)))
  find_many-IsTop le n w rows o =
      take-IsTop le n (filter w rows) (db.order_by le (db.find_many w rows))
        (db.order_by_sorted le (db.find_many w rows) o)
        (Permᴰ.trans (db.order_by_perm le (db.find_many w rows)) (db.find_many_perm w rows))

  head?_only :
      (q : R → Bool) (rows : List R) {r : R}
      → length rows ≡ 1
      → head? rows ≡ some r
      → every q rows ≡ q r
  head?_only q [] h e = absurd (omega arith)
  head?_only q (x ∷ []) h e = ground arith
  head?_only q (x ∷ y ∷ rows) h e = absurd (omega arith)

  -- Where one row fits, what holds of it holds of all that fit.
  pub find_first_only :
      (w q : R → Bool) (rows : List R) {r : R}
      → count w rows ≡ 1
      → find_first w rows ≡ some r
      → every (λ x. not (w x) || q x) rows ≡ q r
  find_first_only w q rows h e =
      sym (every-find_many w q rows)
      ∙ head?_only q (db.find_many w rows) (length-find_many w rows ∙ h) e

  -- What an update does to a test of all rows.
  pub every-modify_eq :
      (q w : R → Bool) (f : R → R) (rows : List R)
      → every q (db.modify w f rows) ≡ every (λ r. q (if w r then f r else r)) rows
  every-modify_eq q w f rows =
      every-perm q (db.modify_perm w f rows) ∙ every-map (λ r. if w r then f r else r) q rows

  -- What an update does to a sum over the rows.
  pub sum_of-modify :
      (g : R → ℕ) (w : R → Bool) (f : R → R) (rows : List R)
      → sum_of g (db.modify w f rows) ≡ sum_of (λ r. g (if w r then f r else r)) rows
  sum_of-modify g w f rows =
      sum_of-perm g (db.modify_perm w f rows) ∙ sum_of-map (λ r. if w r then f r else r) g rows

  pub sum_of-insert :
      (g : R → ℕ) (r : R) (rows : List R) → sum_of g (db.insert r rows) ≡ g r + sum_of g rows
  sum_of-insert g r rows = sum_of-perm g (db.insert_perm r rows)

module _ ⦃db : Prisma⦄ {R V : Type 0} where
  map-filter-modified :
      (g : R → V) (q w : R → Bool) (f : R → R)
      → ((r : R) → q (f r) ≡ q r)
      → ((r : R) → g (f r) ≡ g r)
      → (rows : List R)
      → map g (filter q (map (λ r. if w r then f r else r) rows)) ≡ map g (filter q rows)
  map-filter-modified g q w f same_q same_g [] = refl
  map-filter-modified g q w f same_q same_g (r ∷ rows) =
      ground (arith, same_q r, same_g r, map-filter-modified g q w f same_q same_g rows)

  -- A view of some rows that an update does not change.
  pub view-modify :
      (g : R → V) (q w : R → Bool) (f : R → R) (rows : List R)
      → ((r : R) → q (f r) ≡ q r)
      → ((r : R) → g (f r) ≡ g r)
      → Permᴰ (map g (filter q (db.modify w f rows))) (map g (filter q rows))
  view-modify g q w f rows same_q same_g =
      Permᴰ.trans (map-perm g (filter-perm q (db.modify_perm w f rows))) (
        subst (Permᴰ (map g (filter q (map (λ r. if w r then f r else r) rows))))
          (map-filter-modified g q w f same_q same_g rows) (Permᴰ.refl _))

-- Counts, tests and lengths of what the client answers, by the rows of the table.
pub ruleset row_laws = (
  count-find_many, any-find_many, every-find_many, length-find_many, count-insert, any-insert,
  every-insert, sum_of-insert, count-remove,
)
