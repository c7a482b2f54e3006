-- ===== src/Contests/Registration.antt =====
-- POST /:slug/register
use judge.Base.{
  ℕ, ◌+◌, ◌≡◌, refl, ap, Bool, true, String, none, some, any, count, eq_iff, if◌then◌else◌,
  Bool-cases, inl, inr, arith, ◌∙◌,
}
use judge.Schema.{Db, Contest, ContestParticipant}
use judge.Prisma.{Prisma}
use judge.Prisma.Rows.{row_laws, any-insert}
use judge.Http.{json, respond}
use judge.Auth.{AuthUser, auth_required}
use judge.Callback.{is_participant, participant}
use judge.Contests.{find_contest, add_participant, register_contest}

-- The rows after a registration: one more for a user who was no participant, with score 0.
abbrev pub one_more : String → String → Db → (ContestParticipant → Bool) → ℕ
one_more contest_id user_id db q =
    if any (is_participant contest_id user_id) db.contest_participants
    then 0
    else (if q (participant contest_id user_id 0 none) then 1 else 0)

module _ ⦃prisma : Prisma⦄ where
  add_participant_rows :
      (contest_id user_id : String) (db : Db) (q : ContestParticipant → Bool)
      → count q (add_participant contest_id user_id db).contest_participants
        ≡ one_more contest_id user_id db q + count q db.contest_participants
  unfolding add_participant
  add_participant_rows contest_id user_id db q =
      elim (Bool-cases (any (is_participant contest_id user_id) db.contest_participants)) [
        | inl e ↦ rw e (omega arith)
        | inr e ↦ rw e (simp row_laws)
      ]

  add_participant_there :
      (contest_id user_id : String) (db : Db)
      → any
          (is_participant contest_id user_id)
          (add_participant contest_id user_id db).contest_participants
        ≡ true
  unfolding add_participant
  add_participant_there contest_id user_id db =
      elim (Bool-cases (any (is_participant contest_id user_id) db.contest_participants)) [
        | inl e ↦ rw e e
        | inr e ↦ rw e (
            any-insert (is_participant contest_id user_id) (participant contest_id user_id 0 none)
              db.contest_participants
            ∙ ground (arith, eq_iff contest_id contest_id, eq_iff user_id user_id))
      ]

  add_participant_known :
      (contest_id user_id : String) (db : Db)
      → any (is_participant contest_id user_id) db.contest_participants ≡ true
      → add_participant contest_id user_id db ≡ db
  unfolding add_participant
  add_participant_known contest_id user_id db e = rw e refl

  add_participant_twice :
      (contest_id user_id : String) (db : Db)
      → add_participant contest_id user_id (add_participant contest_id user_id db)
        ≡ add_participant contest_id user_id db
  add_participant_twice contest_id user_id db =
      add_participant_known contest_id user_id (add_participant contest_id user_id db)
        (add_participant_there contest_id user_id db)

  find_contest-add_participant :
      (contest_id user_id slug : String) (db : Db)
      → find_contest (add_participant contest_id user_id db) slug ≡ find_contest db slug
  unfolding find_contest add_participant
  find_contest-add_participant contest_id user_id slug db =
      elim (Bool-cases (any (is_participant contest_id user_id) db.contest_participants)) [
        | inl e ↦ rw e refl
        | inr e ↦ rw e refl
      ]

  register_contest_run :
      (u : AuthUser) (slug : String) (c : Contest) (db : Db)
      → find_contest db slug ≡ some c
      → register_contest (some u) slug db ≡ (json 200 tt, add_participant c.id u.id db)
  unfolding register_contest auth_required respond
  register_contest_run u slug c db e = ground (arith, e)

  -- Registering for a contest that is there answers 200 and leaves every participant's row as it
  -- was; the user is a participant afterwards, with score 0 if it is new; and registering again
  -- changes nothing.
  pub register_contest_once :
      (u : AuthUser) (slug : String) (c : Contest) (db : Db)
      → find_contest db slug ≡ some c
      → (q : ContestParticipant → Bool)
      → (register_contest (some u) slug db ≡ (json 200 tt, add_participant c.id u.id db))
        × (count q (register_contest (some u) slug db).1.contest_participants
            ≡ one_more c.id u.id db q + count q db.contest_participants)
        × (any (is_participant c.id u.id) (register_contest (some u) slug db).1.contest_participants
            ≡ true)
        × (register_contest (some u) slug (add_participant c.id u.id db)
            ≡ (json 200 tt, add_participant c.id u.id db))
  register_contest_once u slug c db e q = (
    register_contest_run u slug c db e,
    ap (λ done. count q done.1.contest_participants) (register_contest_run u slug c db e)
        ∙ add_participant_rows c.id u.id db q,
    ap (λ done. any (is_participant c.id u.id) done.1.contest_participants)
          (register_contest_run u slug c db e)
        ∙ add_participant_there c.id u.id db,
    register_contest_run u slug c (add_participant c.id u.id db)
          (find_contest-add_participant c.id u.id slug db ∙ e)
        ∙ ap (λ db'. (json 200 tt, db')) (add_participant_twice c.id u.id db),
  )
