-- ===== src/Grader/Combine.antt =====
-- The overall verdict is the worst one, whatever the order of the cases.
use judge.Base.{
  ℕ, ◌≤◌, ◌<◌, max, ◌≡◌, refl, sym, ap, subst, ◌∙◌, ◌↔◌, true, List, [], ◌∷◌, foldl, Permᴰ, arith,
  leb, ◌==◌, max_of, max_of-perm, every, any, length, length-perm, All, Bool-cases, inl, inr,
  &&-parts,
}
use judge.Schema.{SubmissionStatus, pending, running, ac, wa, tle, mle, re, ce, ie}
use judge.Grader.{rank, worse, combine_verdicts, is_final_verdict}

-- No two statuses share a rank.
pub rank_injective : (a b : SubmissionStatus) → rank a ≡ rank b → a ≡ b
rank_injective ac b e = ground arith
rank_injective pending b e = ground arith
rank_injective running b e = ground arith
rank_injective wa b e = ground arith
rank_injective tle b e = ground arith
rank_injective mle b e = ground arith
rank_injective re b e = ground arith
rank_injective ce b e = ground arith
rank_injective ie b e = ground arith

rank-worse : (a b : SubmissionStatus) → rank (worse a b) ≡ max (rank a) (rank b)
unfolding worse
rank-worse a b = ground arith

rank-foldl :
    (a : SubmissionStatus) (vs : List SubmissionStatus)
    → rank (foldl worse a vs) ≡ max (rank a) (max_of rank vs)
rank-foldl a [] = omega arith
rank-foldl a (v ∷ vs) = omega (arith, rank-foldl (worse a v) vs, rank-worse a v)

pub rank-combine_verdicts :
    (v : SubmissionStatus) (vs : List SubmissionStatus)
    → rank (combine_verdicts (v ∷ vs)) ≡ max_of rank (v ∷ vs)
unfolding combine_verdicts
rank-combine_verdicts v vs = omega (arith, rank-foldl ac (v ∷ vs))

rank-le-max_of : (vs : List SubmissionStatus) → every (λ v. leb (rank v) (max_of rank vs)) vs ≡ true
rank-le-max_of vs = le_all vs (max_of rank vs) (omega arith)
  where
    le_all :
        (ws : List SubmissionStatus) (n : ℕ)
        → max_of rank ws ≤ n
        → every (λ v. leb (rank v) n) ws ≡ true
    le_all [] n h = refl
    le_all (w ∷ ws) n h = ground (arith, le_all ws n)

max_of_attained :
    (v : SubmissionStatus) (vs : List SubmissionStatus)
    → any (λ w. rank w == max_of rank (v ∷ vs)) (v ∷ vs) ≡ true
max_of_attained v [] = ground arith
max_of_attained v (w ∷ vs) = ground (arith, max_of_attained w vs)

-- Of at least one verdict the combination is one of them, and none of them ranks above it.
pub combine_verdicts_worst :
    (v : SubmissionStatus) (vs : List SubmissionStatus)
    → (any (λ w. rank w == rank (combine_verdicts (v ∷ vs))) (v ∷ vs) ≡ true)
      × (every (λ w. leb (rank w) (rank (combine_verdicts (v ∷ vs)))) (v ∷ vs) ≡ true)
combine_verdicts_worst v vs =
    subst
      (λ n.
        (any (λ w. rank w == n) (v ∷ vs) ≡ true) × (every (λ w. leb (rank w) n) (v ∷ vs) ≡ true))
      (sym (rank-combine_verdicts v vs)) (max_of_attained v vs, rank-le-max_of (v ∷ vs))

-- The order of the cases does not matter.
pub combine_verdicts-perm :
    (vs ws : List SubmissionStatus) → Permᴰ vs ws → combine_verdicts vs ≡ combine_verdicts ws
combine_verdicts-perm [] [] h = refl
combine_verdicts-perm [] (w ∷ ws) h = absurd (omega (arith, length-perm h))
combine_verdicts-perm (v ∷ vs) [] h = absurd (omega (arith, length-perm h))
combine_verdicts-perm (v ∷ vs) (w ∷ ws) h =
    rank_injective _ _
      (rank-combine_verdicts v vs ∙ max_of-perm rank h ∙ sym (rank-combine_verdicts w ws))

accepted_of_zero : (vs : List SubmissionStatus) → max_of rank vs ≡ 0 → All (λ v. v ≡ ac) vs
accepted_of_zero [] h = tt
accepted_of_zero (v ∷ vs) h = (rank_injective v ac (omega arith), accepted_of_zero vs (omega arith))

ranks_zero : (vs : List SubmissionStatus) → All (λ v. v ≡ ac) vs → max_of rank vs ≡ 0
ranks_zero [] h = refl
ranks_zero (v ∷ vs) (e, h) = omega (arith, ap rank e, ranks_zero vs h)

-- The overall verdict is accepted exactly when there is a case and all are accepted.
pub combine_verdicts-ac_iff :
    (vs : List SubmissionStatus)
    → (combine_verdicts vs ≡ ac) ↔ ((0 < length vs) × All (λ v. v ≡ ac) vs)
unfolding combine_verdicts
combine_verdicts-ac_iff [] = (λ h. cc, λ h. absurd (omega arith))
combine_verdicts-ac_iff (v ∷ vs) = (
  λ e. (omega arith, accepted_of_zero (v ∷ vs) (sym (rank-combine_verdicts v vs) ∙ ap rank e)),
  λ h. rank_injective _ _ (rank-combine_verdicts v vs ∙ ranks_zero (v ∷ vs) h.1),
)

worse-final :
    (a v : SubmissionStatus)
    → is_final_verdict a ≡ true
    → is_final_verdict v ≡ true
    → is_final_verdict (worse a v) ≡ true
unfolding worse
worse-final a v h k = elim (Bool-cases (leb (rank a) (rank v))) [ inl e ↦ rw e k | inr e ↦ rw e h ]

foldl-final :
    (a : SubmissionStatus) (vs : List SubmissionStatus)
    → is_final_verdict a ≡ true
    → every is_final_verdict vs ≡ true
    → is_final_verdict (foldl worse a vs) ≡ true
foldl-final a [] h k = h
foldl-final a (v ∷ vs) h k =
    let (here, rest) = &&-parts _ _ k in foldl-final (worse a v) vs (worse-final a v h here) rest

-- Where every case is final, so is the overall verdict.
pub combine_verdicts-final :
    (v : SubmissionStatus) (vs : List SubmissionStatus)
    → every is_final_verdict (v ∷ vs) ≡ true
    → is_final_verdict (combine_verdicts (v ∷ vs)) ≡ true
unfolding combine_verdicts is_final_verdict
combine_verdicts-final v vs h = foldl-final ac (v ∷ vs) refl h
