-- ===== src/Leaderboard/Ranking.antt =====
-- The leaderboard of platform/backend/src/routes/leaderboard.ts.
use judge.Base.{
  ◌≡◌, refl, subst, String, true, List, [], ◌∷◌, ◌+◌, map, map_from, any, every, count, Permᴰ, sort,
  sort-perm, sort-IsSorted, IsSorted, IsTop, take-IsTop, falling-IsOrder, str_eq, leb, ◌==◌,
  if◌then◌else◌, none, some, arith,
}
use judge.Schema.{Db, User}
use judge.Prisma.{Prisma, find_first}
use judge.Http.{json, respond}
use judge.Leaderboard.{
  Group, Entry, ranked, more_rows, more_solved, groups, top_groups, entry, entries, get_leaderboard,
}
use judge.Leaderboard.Solved.{
  HasProblems, is_accepted, solved_problems, solved_by-problems, groups_once, groups_counted,
}

module _ ⦃prisma : Prisma⦄ where
  -- What is shown of a user: the name and the rating, and the number of solved problems.
  abbrev pub row_of : Db → String → Entry
  row_of db id = elim (find_first (λ (u : User). str_eq u.id id) db.users) [
    | none ↦ record { username = "unknown"; rating = 1500; solved = solved_problems db id }
    | some u ↦ record { username = u.username; rating = u.rating; solved = solved_problems db id }
  ]

  entry-row_of : (db : Db) → HasProblems db → (g : Group) → entry db g ≡ row_of db g.user_id
  unfolding entry
  entry-row_of db h g = ground (arith, solved_by-problems db g.user_id h)

  map_same :
      {A B : Type 0} (f g : A → B) → ((x : A) → f x ≡ g x) → (xs : List A) → map f xs ≡ map g xs
  map_same f g h [] = refl
  map_same f g h (x ∷ xs) = rw (h x, map_same f g h xs) refl

  -- Let each problem have its own identifier, and each submission its problem. There is one group for
  -- each user with an accepted submission, and it counts these submissions; the leaderboard takes the
  -- 100 groups with the most, or all, and shows the name, the rating and the number of problems that
  -- the user has solved, by falling numbers, with the ranks 1, 2, …; nothing is written.
  pub get_leaderboard-ranked :
      (db : Db)
      → HasProblems db
      → (all : List Group) × (chosen : List Group) × (shown : List Entry) × (get_leaderboard db
          ≡ (json 200 (map_from (λ i e. record { rank = i + 1; entry = e }) 0 shown), db))
        × ((id : String)
            → count (λ (g : Group). str_eq g.user_id id) all
              ≡ (if any (is_accepted id) db.submissions then 1 else 0))
        × (every (λ (g : Group). g.count == count (is_accepted g.user_id) db.submissions) all
            ≡ true)
        × IsTop (λ (g h : Group). leb h.count g.count) 100 all chosen
        × Permᴰ shown (map (λ (g : Group). row_of db g.user_id) chosen)
        × IsSorted (λ (d e : Entry). leb e.solved d.solved) shown
  unfolding get_leaderboard respond entries top_groups ranked
  get_leaderboard-ranked db h = (
    groups db,
    top_groups db,
    entries db,
    refl,
    groups_once db,
    groups_counted db,
    take-IsTop more_rows 100 (groups db) (sort more_rows (groups db))
        (sort-IsSorted more_rows (groups db) (falling-IsOrder (λ (g : Group). g.count)))
        (sort-perm more_rows (groups db)),
    subst (λ (es : List Entry). Permᴰ (entries db) es)
        (map_same (entry db) (λ g. row_of db g.user_id) (entry-row_of db h) (top_groups db))
        (sort-perm more_solved (map (entry db) (top_groups db))),
    sort-IsSorted more_solved (map (entry db) (top_groups db))
        (falling-IsOrder (λ (e : Entry). e.solved)),
  )
