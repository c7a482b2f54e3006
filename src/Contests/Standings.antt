-- ===== src/Contests/Standings.antt =====
-- The leaderboard of a contest's page.
use judge.Base.{
  ℕ, zero, suc, ◌+◌, ◌≡◌, refl, ap, ◌∙◌, true, false, List, [], ◌∷◌, Option, none, some, length,
  map, map_from, filter, IsOrder, IsTop, str_eq, arith, String, Bool, subst, ltb, leb, ◌==◌,
  if◌then◌else◌,
}
use mathlib.Core.Option
use judge.Schema.{Db, User, Contest, ContestParticipant}
use judge.Prisma.{Prisma, find_first}
use judge.Prisma.Rows.{find_many-IsTop}
use judge.Contests.{ranks_before, time_le, top_participants, standing, standings, Standing}

time_le_total : (a b : Option ℕ) → time_le a b ≡ false → time_le b a ≡ true
time_le_total none none h = refl
time_le_total none (some b) h = refl
time_le_total (some a) none h = ground arith
time_le_total (some a) (some b) h = ground arith

time_le_trans : (a b c : Option ℕ) → time_le a b ≡ true → time_le b c ≡ true → time_le a c ≡ true
time_le_trans none none none h k = refl
time_le_trans none none (some c) h k = ground arith
time_le_trans none (some b) c h k = absurd (ground arith)
time_le_trans (some a) b none h k = refl
time_le_trans (some a) none (some c) h k = absurd (ground arith)
time_le_trans (some a) (some b) (some c) h k = ground arith

ranks_before-IsOrder : IsOrder ranks_before
unfolding ranks_before
ranks_before-IsOrder = record {
  total = λ p q h. ground (arith, time_le_total p.last_submission_at q.last_submission_at);
  trans = λ p q r h k.
      ground (arith, time_le_trans p.last_submission_at q.last_submission_at r.last_submission_at);
}

-- The first time is there, and is not after the second, if there is one.
abbrev pub is_earlier : Option ℕ → Option ℕ → Bool
is_earlier (some a) (some b) = leb a b
is_earlier (some a) none = true
is_earlier none (some b) = false
is_earlier none none = true

-- `p` stands before `q`, or equal.
abbrev pub is_better : ContestParticipant → ContestParticipant → Bool
is_better p q =
    if p.score == q.score
    then is_earlier p.last_submission_at q.last_submission_at
    else ltb q.score p.score

same_time : (a b : Option ℕ) → time_le a b ≡ is_earlier a b
same_time none none = refl
same_time none (some b) = refl
same_time (some a) none = refl
same_time (some a) (some b) = ground arith

same_order : ranks_before ≡ is_better
unfolding ranks_before
same_order i p q =
    let same : ranks_before p q ≡ is_better p q =
      ground (arith, same_time p.last_submission_at q.last_submission_at) in
    same i

module _ ⦃prisma : Prisma⦄ where
  abbrev pub name_of : Db → ContestParticipant → Option String
  name_of db p =
      Option.map (λ (u : User). u.username)
        (find_first (λ (u : User). str_eq u.id p.user_id) db.users)

-- The numbers from `i` on, `n` of them.
abbrev pub from : ℕ → ℕ → List ℕ
from i zero = []
from i (suc n) = i ∷ from (suc i) n

module _ ⦃prisma : Prisma⦄ where
  ranks-standing :
      (db : Db) (i : ℕ) (ps : List ContestParticipant)
      → map (λ (s : Standing). s.rank) (map_from (standing db) i ps) ≡ from (i + 1) (length ps)
  unfolding standing
  ranks-standing db i [] = refl
  ranks-standing db i (p ∷ ps) =
      ap (λ rest. (i + 1) ∷ rest)
        (ranks-standing db (suc i) ps ∙ ap (λ j. from j (length ps)) (omega arith))

  scores-standing :
      (db : Db) (i : ℕ) (ps : List ContestParticipant)
      → map (λ (s : Standing). s.score) (map_from (standing db) i ps)
        ≡ map (λ (p : ContestParticipant). p.score) ps
  unfolding standing
  scores-standing db i [] = refl
  scores-standing db i (p ∷ ps) = ap (λ rest. p.score ∷ rest) (scores-standing db (suc i) ps)

  names-standing :
      (db : Db) (i : ℕ) (ps : List ContestParticipant)
      → map (λ (s : Standing). s.username) (map_from (standing db) i ps) ≡ map (name_of db) ps
  unfolding standing
  names-standing db i [] = refl
  names-standing db i (p ∷ ps) = ap (λ rest. name_of db p ∷ rest) (names-standing db (suc i) ps)

  times-standing :
      (db : Db) (i : ℕ) (ps : List ContestParticipant)
      → map (λ (s : Standing). s.last_submission_at) (map_from (standing db) i ps)
        ≡ map (λ (p : ContestParticipant). p.last_submission_at) ps
  unfolding standing
  times-standing db i [] = refl
  times-standing db i (p ∷ ps) =
      ap (λ rest. p.last_submission_at ∷ rest) (times-standing db (suc i) ps)

  -- The leaderboard of a contest shows its best 100 participants, all of them where there are no more:
  -- the higher score first, of equal scores the earlier last submission, and one who has submitted
  -- nothing after those who have. The ranks are 1, 2, … in this order, and each row has the name, the
  -- score and the time of its participant.
  pub standings_best :
      (db : Db) (c : Contest)
      → (found : List ContestParticipant) × IsTop is_better 100
          (filter (λ (p : ContestParticipant). str_eq p.contest_id c.id) db.contest_participants)
          found
        × (map (λ (s : Standing). s.rank) (standings db c) ≡ from 1 (length found))
        × (map (λ (s : Standing). s.username) (standings db c) ≡ map (name_of db) found)
        × (map (λ (s : Standing). s.score) (standings db c)
            ≡ map (λ (p : ContestParticipant). p.score) found)
        × (map (λ (s : Standing). s.last_submission_at) (standings db c)
            ≡ map (λ (p : ContestParticipant). p.last_submission_at) found)
  unfolding standings top_participants
  standings_best db c = (
    top_participants db c,
    subst
        (λ le.
          IsTop le 100
            (filter (λ (p : ContestParticipant). str_eq p.contest_id c.id) db.contest_participants)
            (top_participants db c))
        same_order
        (find_many-IsTop ranks_before 100 (λ (p : ContestParticipant). str_eq p.contest_id c.id)
          db.contest_participants ranks_before-IsOrder),
    ranks-standing db 0 (top_participants db c),
    names-standing db 0 (top_participants db c),
    scores-standing db 0 (top_participants db c),
    times-standing db 0 (top_participants db c),
  )
