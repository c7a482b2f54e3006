-- ===== src/Callback/Score.antt =====
-- A contest score is the sum of the points of the problems that the user has solved in the window.
use judge.Base.{
  ℕ, ◌+◌, ◌*◌, ◌≤◌, String, ◌≡◌, refl, sym, ◌∙◌, Bool, true, not, ◌&&◌, ◌||◌, List, [], ◌∷◌, Option,
  none, foldl, filter, any, every, count, sum_of, sum_of-perm, every-perm, or_else, str_eq, eq_iff,
  is_key, leb, ◌==◌, Bool-cases, inl, inr, arith, if◌then◌else◌, every_of_none,
}
use judge.Schema.{Db, Contest, ContestProblem, ContestParticipant, Submission}
use judge.Prisma.{Prisma}
use judge.Prisma.Rows.{count-find_many, any-find_many, every-modify_where, any-modify, any-insert}
use judge.Grader.{is_ac}
use judge.Callback.{
  points_of, score_of, accepted_in, contest_problems_of, write_score, score_in, is_participant,
  participant,
}

pub str_eq_comm : (a b : String) → str_eq a b ≡ str_eq b a
str_eq_comm a b = ground (arith, eq_iff a b, eq_iff b a)

module _ {A : Type 0} where
  foldl-sum_of :
      (g : A → ℕ) (acc : ℕ) (xs : List A)
      → foldl (λ (sum : ℕ) (x : A). sum + g x) acc xs ≡ acc + sum_of g xs
  foldl-sum_of g acc [] = omega arith
  foldl-sum_of g acc (x ∷ xs) = omega (arith, foldl-sum_of g (acc + g x) xs)

  sum_of-add : (f g : A → ℕ) (xs : List A) → sum_of (λ x. f x + g x) xs ≡ sum_of f xs + sum_of g xs
  sum_of-add f g [] = omega arith
  sum_of-add f g (x ∷ xs) = omega (arith, sum_of-add f g xs)

  sum_of-zero : (xs : List A) → sum_of (λ x. 0) xs ≡ 0
  sum_of-zero [] = refl
  sum_of-zero (x ∷ xs) = omega (arith, sum_of-zero xs)

  pub sum_of_if :
      (p : A → Bool) (n : ℕ) (xs : List A) → sum_of (λ x. if p x then n else 0) xs ≡ count p xs * n
  sum_of_if p n [] = omega arith
  sum_of_if p n (x ∷ xs) = ground (arith, sum_of_if p n xs)

  pub sum_of-eq : (f g : A → ℕ) → ((x : A) → f x ≡ g x) → (xs : List A) → sum_of f xs ≡ sum_of g xs
  sum_of-eq f g h [] = refl
  sum_of-eq f g h (x ∷ xs) = omega (arith, h x, sum_of-eq f g h xs)

-- The order of summation.
pub sum_of_swap :
    {A B : Type 0} (h : A → B → ℕ) (xs : List A) (ys : List B)
    → sum_of (λ x. sum_of (h x) ys) xs ≡ sum_of (λ y. sum_of (λ x. h x y) xs) ys
sum_of_swap h [] ys = sym (sum_of-zero ys)
sum_of_swap h (x ∷ xs) ys =
    omega (arith, sum_of_swap h xs ys, sum_of-add (h x) (λ y. sum_of (λ x. h x y) xs) ys)

points_at : String → ContestProblem → ℕ
points_at k p = if str_eq p.problem_id k then p.points else 0

points_of-none :
    (ps : List ContestProblem) (k : String)
    → count (λ (p : ContestProblem). str_eq p.problem_id k) ps ≡ 0
    → (points_of ps k ≡ none) × (sum_of (points_at k) ps ≡ 0)
unfolding points_of points_at
points_of-none [] k h = (refl, refl)
points_of-none (p ∷ ps) k h = ground (arith, points_of-none ps k)

-- Where a problem is in the contest once, the `Map` gives its points.
points_of-sum :
    (ps : List ContestProblem) (k : String)
    → count (λ (p : ContestProblem). str_eq p.problem_id k) ps ≤ 1
    → or_else (points_of ps k) 0 ≡ sum_of (points_at k) ps
unfolding points_of points_at
points_of-sum [] k h = refl
points_of-sum (p ∷ ps) k h = elim (Bool-cases (str_eq p.problem_id k)) [
  | inl e ↦ ground (arith, points_of-none ps k)
  | inr e ↦ ground (arith, points_of-sum ps k)
]

-- A submission that counts for the user in the contest: accepted, and made inside the window.
abbrev pub counts : Contest → String → Submission → Bool
counts c user_id s =
    is_key c.id s.contest_id
    && str_eq s.user_id user_id
    && is_ac s.status
    && leb c.starts_at s.created_at
    && leb s.created_at c.ends_at

-- The user has such a submission for the problem.
abbrev pub has_solved : Db → Contest → String → String → Bool
has_solved db c user_id k =
    any (λ (s : Submission). counts c user_id s && str_eq s.problem_id k) db.submissions

-- The points of the solved problems, each problem of the contest once.
abbrev pub earned : Db → Contest → String → ℕ
earned db c user_id =
    sum_of (λ (p : ContestProblem). if has_solved db c user_id p.problem_id then p.points else 0)
      (filter (λ (p : ContestProblem). str_eq p.contest_id c.id) db.contest_problems)

module _ ⦃prisma : Prisma⦄ (db : Db) (c : Contest) (user_id : String) where
  points_for :
      (p : ContestProblem)
      → sum_of (λ (s : Submission). points_at s.problem_id p) (accepted_in db c user_id)
        ≡ (if has_solved db c user_id p.problem_id then p.points else 0)
  unfolding points_at accepted_in
  points_for p =
      sum_of-eq _ (λ (s : Submission). if str_eq s.problem_id p.problem_id then p.points else 0)
        (λ s. rw (str_eq_comm p.problem_id s.problem_id)) accepted
      ∙ sum_of_if (λ s. str_eq s.problem_id p.problem_id) p.points accepted
      ∙ ground (
        arith,
        prisma.distinct_once (λ (s : Submission). s.problem_id) p.problem_id found,
        any-find_many (counts c user_id) (λ s. str_eq s.problem_id p.problem_id) db.submissions,
      )
    where
      found : List Submission
      found = prisma.find_many (counts c user_id) db.submissions

      accepted : List Submission
      accepted = prisma.distinct (λ (s : Submission). s.problem_id) found

  score_of-sum :
      (ps : List ContestProblem)
      → ((k : String) → count (λ (p : ContestProblem). str_eq p.problem_id k) ps ≤ 1)
      → score_of ps (accepted_in db c user_id)
        ≡ sum_of
            (λ (p : ContestProblem). if has_solved db c user_id p.problem_id then p.points else 0)
            ps
  unfolding score_of
  score_of-sum ps unique =
      foldl-sum_of (λ (s : Submission). or_else (points_of ps s.problem_id) 0) 0 accepted
      ∙ omega arith
      ∙ sum_of-eq _ (λ (s : Submission). sum_of (points_at s.problem_id) ps)
          (λ s. points_of-sum ps s.problem_id (unique s.problem_id)) accepted
      ∙ sum_of_swap (λ (s : Submission). points_at s.problem_id) accepted ps
      ∙ sum_of-eq _ _ points_for ps
    where
      accepted : List Submission
      accepted = accepted_in db c user_id

  score_of-earned :
      ((k : String)
        → count
            (λ (p : ContestProblem). str_eq p.contest_id c.id && str_eq p.problem_id k)
            db.contest_problems
          ≤ 1)
      → score_of (contest_problems_of db c.id) (accepted_in db c user_id) ≡ earned db c user_id
  unfolding contest_problems_of
  score_of-earned unique =
      score_of-sum _ (λ k.
        rw
          (count-find_many (λ (p : ContestProblem). str_eq p.contest_id c.id)
            (λ p. str_eq p.problem_id k) db.contest_problems)
          (unique k))
      ∙ sum_of-perm _ (prisma.find_many_perm (λ p. str_eq p.contest_id c.id) db.contest_problems)

  module _ (score : ℕ) (last : Option ℕ) where
    has_score : ContestParticipant → Bool
    has_score p = not (is_participant c.id user_id p) || p.score == score

    write_score-has_score :
        every has_score (write_score c.id user_id score last db).contest_participants ≡ true
    unfolding write_score has_score
    write_score-has_score =
        elim (Bool-cases (any (is_participant c.id user_id) db.contest_participants)) [
          | inl old ↦ rw old (
              every-modify_where (λ p. p.score == score) (is_participant c.id user_id)
                (λ p. record p { score = score; last_submission_at = last }) db.contest_participants
                (λ p. ground arith))
          | inr new ↦
              rw
                (
                  new,
                  every-perm has_score (
                      prisma.insert_perm (participant c.id user_id score last)
                        db.contest_participants),
                )
                (ground (
                  arith,
                  every_of_none (is_participant c.id user_id) (λ p. p.score == score)
                      db.contest_participants new,
                ))
        ]

    write_score-there :
        any
          (is_participant c.id user_id)
          (write_score c.id user_id score last db).contest_participants
        ≡ true
    unfolding write_score
    write_score-there =
        elim (Bool-cases (any (is_participant c.id user_id) db.contest_participants)) [
          | inl old ↦ rw old (
              any-modify (is_participant c.id user_id) (is_participant c.id user_id)
                (λ p. record p { score = score; last_submission_at = last }) db.contest_participants
                (λ p. refl)
              ∙ old)
          | inr new ↦
              rw
                (
                  new,
                  any-insert (is_participant c.id user_id) (participant c.id user_id score last)
                      db.contest_participants,
                )
                (ground (arith, eq_iff c.id c.id, eq_iff user_id user_id))
        ]

  -- Where the contest holds no problem twice, scoring leaves the user as a participant, with the
  -- sum of the points of the contest's problems for which an accepted submission of the user was
  -- made in the contest and inside its window; several accepted submissions of one problem count
  -- once.
  pub score_in-earned :
      (now : ℕ)
      → ((k : String)
          → count
              (λ (p : ContestProblem). str_eq p.contest_id c.id && str_eq p.problem_id k)
              db.contest_problems
            ≤ 1)
      → (any (is_participant c.id user_id) (score_in user_id now c db).contest_participants ≡ true)
        × (every
              (λ p. not (is_participant c.id user_id p) || p.score == earned db c user_id)
              (score_in user_id now c db).contest_participants
            ≡ true)
  unfolding score_in has_score
  score_in-earned now unique =
      (write_score-there _ _, rw (← score_of-earned unique) (write_score-has_score _ _))
