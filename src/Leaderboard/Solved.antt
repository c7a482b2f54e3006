-- ===== src/Leaderboard/Solved.antt =====
-- The numbers of the leaderboard, platform/backend/src/routes/leaderboard.ts, counted over the tables.
use judge.Base.{
  ℕ, ◌≤◌, String, ◌≡◌, refl, ◌∙◌, Bool, true, ◌&&◌, List, [], ◌∷◌, any, every, count, length,
  sum_of, str_eq, ◌==◌, arith, if◌then◌else◌, count-map, every-map, every_both, every-true,
}
use judge.Schema.{Db, Problem, Submission}
use judge.Prisma.{Prisma}
use judge.Prisma.Rows.{any-find_many, every-find_many, length-find_many}
use judge.Grader.{is_ac}
use judge.Callback.Score.{str_eq_comm, sum_of_swap, sum_of_if, sum_of-eq}
use judge.Leaderboard.{Group, accepted_by, accepted, groups, solved_by}

abbrev pub is_accepted : String → Submission → Bool
is_accepted user_id s = str_eq s.user_id user_id && is_ac s.status

-- The user has an accepted submission for the problem.
abbrev pub has_solved : Db → String → Problem → Bool
has_solved db user_id p =
    any (λ (s : Submission). is_accepted user_id s && str_eq s.problem_id p.id) db.submissions

abbrev pub solved_problems : Db → String → ℕ
solved_problems db user_id = count (has_solved db user_id) db.problems

-- Each identifier has one problem at most, and the problem of each submission is there.
pub record HasProblems (db : Db) : Type 0 where
  pub once : (id : String) → count (λ (p : Problem). str_eq p.id id) db.problems ≤ 1
  pub there :
      every
        (λ (s : Submission). any (λ (p : Problem). str_eq p.id s.problem_id) db.problems)
        db.submissions
      ≡ true

-- whether a submission is for a problem, as a number
abbrev is_for : Submission → Problem → ℕ
is_for s p = if str_eq p.id s.problem_id then 1 else 0

count_of_any : {A : Type 0} (q : A → Bool) (xs : List A) → any q xs ≡ true → 1 ≤ count q xs
count_of_any q [] h = absurd (ground arith)
count_of_any q (x ∷ xs) h = ground (arith, count_of_any q xs)

count_as_sum :
    {A : Type 0} (q : A → Bool) (xs : List A) → sum_of (λ x. if q x then 1 else 0) xs ≡ count q xs
count_as_sum q xs = omega (arith, sum_of_if q 1 xs)

&&-comm : (a b : Bool) → (a && b) ≡ (b && a)
&&-comm a b = ground arith

any_same :
    {A : Type 0} (p q : A → Bool) → ((x : A) → p x ≡ q x) → (xs : List A) → any p xs ≡ any q xs
any_same p q h [] = refl
any_same p q h (x ∷ xs) = ground (arith, h x, any_same p q h xs)

-- Each submission has one problem.
length_as_sum :
    (ps : List Problem) (ss : List Submission)
    → ((id : String) → count (λ (p : Problem). str_eq p.id id) ps ≤ 1)
    → every (λ (s : Submission). any (λ (p : Problem). str_eq p.id s.problem_id) ps) ss ≡ true
    → sum_of (λ s. sum_of (is_for s) ps) ss ≡ length ss
length_as_sum ps [] once there = refl
length_as_sum ps (s ∷ ss) once there =
    let q : Problem → Bool = λ p. str_eq p.id s.problem_id in
    ground
      (arith, once s.problem_id, count_of_any q ps, count_as_sum q ps, length_as_sum ps ss once)

module _ ⦃prisma : Prisma⦄ (db : Db) where
  module _ (user_id : String) where
    abbrev rows : List Submission
    rows = prisma.find_many (is_accepted user_id) db.submissions

    abbrev chosen : List Submission
    chosen = prisma.distinct (λ (s : Submission). s.problem_id) rows

    solved_once :
        (p : Problem) → sum_of (λ s. is_for s p) chosen ≡ (if has_solved db user_id p then 1 else 0)
    solved_once p =
        sum_of-eq _ (λ (s : Submission). if str_eq s.problem_id p.id then 1 else 0)
          (λ s. rw (str_eq_comm p.id s.problem_id) refl) chosen
        ∙ count_as_sum (λ s. str_eq s.problem_id p.id) chosen
        ∙ prisma.distinct_once (λ (s : Submission). s.problem_id) p.id rows
        ∙ rw (any-find_many (is_accepted user_id) (λ s. str_eq s.problem_id p.id) db.submissions)
            refl

    chosen_there :
        HasProblems db
        → every
            (λ (s : Submission). any (λ (p : Problem). str_eq p.id s.problem_id) db.problems)
            chosen
          ≡ true
    chosen_there h = prisma.distinct_every _ _ rows (
        every-find_many (is_accepted user_id) _ db.submissions
        ∙ every_both _ _ _ (λ s p q. ground (arith, p)) db.submissions h.there h.there)

    -- The different problems of the user's accepted submissions are the problems that are solved.
    pub solved_by-problems : HasProblems db → solved_by db user_id ≡ solved_problems db user_id
    unfolding solved_by accepted_by
    solved_by-problems h = omega (
      arith,
      length_as_sum db.problems chosen h.once (chosen_there h),
      sum_of_swap is_for chosen db.problems,
      sum_of-eq _ _ solved_once db.problems,
      count_as_sum (has_solved db user_id) db.problems,
    )

  -- There is one group for each user with an accepted submission.
  pub groups_once :
      (user_id : String)
      → count (λ (g : Group). str_eq g.user_id user_id) (groups db)
        ≡ (if any (is_accepted user_id) db.submissions then 1 else 0)
  unfolding groups accepted
  groups_once user_id =
      count-map _ _ _
      ∙ prisma.distinct_once (λ (s : Submission). s.user_id) user_id (accepted db)
      ∙ rw
          (any-find_many (λ (s : Submission). is_ac s.status) (λ s. str_eq s.user_id user_id)
              db.submissions
            ∙ any_same _ (is_accepted user_id)
                (λ s. &&-comm (is_ac s.status) (str_eq s.user_id user_id)) db.submissions)
          refl

  -- A group counts the accepted submissions of its user.
  pub groups_counted :
      every (λ (g : Group). g.count == count (is_accepted g.user_id) db.submissions) (groups db)
      ≡ true
  unfolding groups accepted_by
  groups_counted =
      every-map made (λ g. g.count == count (is_accepted g.user_id) db.submissions)
        (prisma.distinct (λ (s : Submission). s.user_id) (accepted db))
      ∙ every-true
          (λ (s : Submission).
            length (accepted_by db s.user_id) == count (is_accepted s.user_id) db.submissions)
          (λ s. ground (arith, length-find_many (is_accepted s.user_id) db.submissions))
          (prisma.distinct (λ (s : Submission). s.user_id) (accepted db))
    where
      made : Submission → Group
      made s = record { user_id = s.user_id; count = length (accepted_by db s.user_id) }
