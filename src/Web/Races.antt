-- ===== src/Web/Races.antt =====
-- The answers to the requests of the list of problems, in order and out of order.
use judge.Base.{◌≡◌, refl, List, [], ◌∷◌, ◌++◌, arith, false, Bool-cases, inl, inr, subst, ap}
use judge.Problems.{ListQuery, ProblemItem}
use judge.Client.{Fetched}
use judge.Web.Wire.{list_answered}
use judge.Web.ProblemList.{
  Filters, ListPage, query_of, opened, set_filters, items_answered, same_filters,
}

-- The server answers each query, for as long as the page is looked at, in one way.
module _ (server : ListQuery → Fetched (List ProblemItem)) where
  -- The visitor changes a filter, or the request that has waited longest is answered.
  pub data Step : ListPage → ListPage → Type 0 where
    change : (s : ListPage) (f : Filters) → Step s (set_filters f s)
    answer :
        (s : ListPage) (q : ListQuery) (rest : List ListQuery)
        → s.waiting ≡ (q ∷ rest)
        → Step s (items_answered (server q) rest s)

  pub data Reach (s : ListPage) : ListPage → Type 0 where
    here : Reach s s
    next : {t u : ListPage} → Reach s t → Step t u → Reach s u

  -- The last request that waits asks for the filters of the page; where none waits, the page shows
  -- the answer to them.
  abbrev IsLast : ListPage → ListQuery → List ListQuery → Type 0
  IsLast s q [] = q ≡ query_of s.filters
  IsLast s q (r ∷ rest) = IsLast s r rest

  abbrev pub IsCurrent : ListPage → List ListQuery → Type 0
  IsCurrent s [] = s.items ≡ list_answered (server (query_of s.filters))
  IsCurrent s (q ∷ rest) = IsLast s q rest

  IsLast-append :
      (s : ListPage) (q r : ListQuery) (rest : List ListQuery)
      → r ≡ query_of s.filters
      → IsLast s q (rest ++ r ∷ [])
  IsLast-append s q r [] e = e
  IsLast-append s q r (p ∷ rest) e = IsLast-append s p r rest e

  IsCurrent-append :
      (s : ListPage) (r : ListQuery) (w : List ListQuery)
      → r ≡ query_of s.filters
      → IsCurrent s (w ++ r ∷ [])
  IsCurrent-append s r [] e = e
  IsCurrent-append s r (p ∷ w) e = IsLast-append s p r w e

  IsLast-moved :
      (s t : ListPage) (q : ListQuery) (rest : List ListQuery)
      → s.filters ≡ t.filters
      → IsLast s q rest
      → IsLast t q rest
  IsLast-moved s t q [] e h = cc
  IsLast-moved s t q (r ∷ rest) e h = IsLast-moved s t r rest e h

  set_filters-IsCurrent :
      (s : ListPage) (f : Filters)
      → IsCurrent s s.waiting
      → IsCurrent (set_filters f s) (set_filters f s).waiting
  unfolding set_filters
  set_filters-IsCurrent s f h = elim (Bool-cases (same_filters f s.filters)) [
    | inl e ↦ rw e h
    | inr e ↦ rw e (
        IsCurrent-append (record s { filters = f; waiting = s.waiting ++ query_of f ∷ [] })
          (query_of f) s.waiting refl)
  ]

  answered-IsCurrent :
      (s : ListPage) (q : ListQuery) (rest : List ListQuery)
      → s.waiting ≡ (q ∷ rest)
      → IsCurrent s s.waiting
      → IsCurrent (items_answered (server q) rest s) rest
  unfolding items_answered
  answered-IsCurrent s q [] e h =
      ap (λ (p : ListQuery). list_answered (server p)) (subst (IsCurrent s) e h)
  answered-IsCurrent s q (r ∷ rest) e h =
      IsLast-moved s (items_answered (server q) (r ∷ rest) s) r rest refl (subst (IsCurrent s) e h)

  Reach-IsCurrent : {s : ListPage} → Reach opened s → IsCurrent s s.waiting
  unfolding opened items_answered
  Reach-IsCurrent here = refl
  Reach-IsCurrent (next r (change s f)) = set_filters-IsCurrent s f (Reach-IsCurrent r)
  Reach-IsCurrent (next r (answer s q rest e)) = answered-IsCurrent s q rest e (Reach-IsCurrent r)

  -- Where the requests are answered in the order in which they were sent, whatever the visitor has
  -- chosen in between: a page that waits for no answer shows the server's answer to its filters.
  pub settled_current :
      {s : ListPage}
      → Reach opened s
      → s.waiting ≡ []
      → s.items ≡ list_answered (server (query_of s.filters))
  settled_current {s} r e = subst (IsCurrent s) e (Reach-IsCurrent r)

  -- Where the answer to the second of two choices arrives before the answer to the first, the page
  -- waits for nothing, has the second filters, and shows the answer to the first.
  pub late_answer_wins :
      (f g : Filters) (s : ListPage)
      → same_filters f s.filters ≡ false
      → same_filters g f ≡ false
      → s.waiting ≡ []
      → let t = set_filters g (set_filters f s) in
        let late =
          items_answered
            (server (query_of f))
            []
            (items_answered (server (query_of g)) (query_of f ∷ []) t) in
        (t.waiting ≡ query_of f ∷ query_of g ∷ [])
        × (late.waiting ≡ [])
        × (late.filters ≡ g)
        × (late.items ≡ list_answered (server (query_of f)))
  unfolding set_filters items_answered
  late_answer_wins f g s h k e = ground (arith, h, k, e)
