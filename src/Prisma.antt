-- ===== src/Prisma.antt =====
-- The database client, which is not part of the repository: its operations on a table's rows, with
-- what its documentation promises of each. `where` is a test on rows; joins are tests that look
-- into the other tables.
pub mod Memory
pub mod Rows
use judge.Base.{
  IsOrder, IsSorted, ℕ, String, ◌≡◌, Bool, true, false, List, [], Option, ◌∷◌, map, Permᴰ, filter,
  every, any, count, head?, not, str_eq, if◌then◌else◌,
}

pub record Prisma : Type 1 where
  pub find_many : {R : Type 0} → (R → Bool) → List R → List R
  pub order_by : {R : Type 0} → (R → R → Bool) → List R → List R
  pub distinct : {R : Type 0} → (R → String) → List R → List R
  pub insert : {R : Type 0} → R → List R → List R
  pub modify : {R : Type 0} → (R → Bool) → (R → R) → List R → List R
  pub remove : {R : Type 0} → (R → Bool) → List R → List R
  pub find_many_perm :
      {R : Type 0} (w : R → Bool) (rows : List R) → Permᴰ (find_many w rows) (filter w rows)
  pub order_by_perm :
      {R : Type 0} (le : R → R → Bool) (rows : List R) → Permᴰ (order_by le rows) rows
  pub order_by_sorted :
      {R : Type 0} (le : R → R → Bool) (rows : List R) → IsOrder le → IsSorted le (order_by le rows)
  -- One row stands for each key, and it is one of the rows.
  pub distinct_once :
      {R : Type 0} (key : R → String) (k : String) (rows : List R)
      → count (λ r. str_eq (key r) k) (distinct key rows)
        ≡ (if any (λ r. str_eq (key r) k) rows then 1 else 0)
  pub distinct_every :
      {R : Type 0} (key : R → String) (p : R → Bool) (rows : List R)
      → every p rows ≡ true
      → every p (distinct key rows) ≡ true
  pub insert_perm : {R : Type 0} (r : R) (rows : List R) → Permᴰ (insert r rows) (r ∷ rows)
  pub modify_perm :
      {R : Type 0} (w : R → Bool) (f : R → R) (rows : List R)
      → Permᴰ (modify w f rows) (map (λ r. if w r then f r else r) rows)
  pub remove_perm :
      {R : Type 0} (w : R → Bool) (rows : List R)
      → Permᴰ (remove w rows) (filter (λ r. not (w r)) rows)

-- `findFirst` and `findUnique`: the first row that `findMany` returns, or `null`.
abbrev pub find_first : ⦃p : Prisma⦄ → {R : Type 0} → (R → Bool) → List R → Option R
find_first ⦃p⦄ w rows = head? (p.find_many w rows)
