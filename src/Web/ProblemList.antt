-- ===== src/Web/ProblemList.antt =====
-- The list of problems, platform/frontend/app/problems/page.tsx: its filters, the requests that have
-- no answer yet, and the rows that it shows.
use judge.Base.{String, Bool, ◌&&◌, List, [], ◌∷◌, ◌++◌, some, truthy, str_eq, if◌then◌else◌}
use judge.Problems.{ListQuery, ProblemItem}
use judge.Client.{Fetched}
use judge.Web.Wire.{list_answered}

pub record Filters : Type 0 where
  pub search : String
  pub difficulty : String
  pub tag : String

pub record ListPage : Type 0 where
  pub filters : Filters
  pub waiting : List ListQuery
  pub items : List ProblemItem

-- The query string has a filter that is not empty.
unfoldable pub query_of : Filters → ListQuery
query_of f = record {
  difficulty = truthy (some f.difficulty);
  tag = truthy (some f.tag);
  search = truthy (some f.search);
}

-- The effect that runs when the page comes up.
unfoldable pub opened : ListPage
unfolding query_of
opened =
    let f : Filters = record { search = ""; difficulty = ""; tag = "" } in
    record { filters = f; waiting = query_of f ∷ []; items = [] }

unfoldable pub same_filters : Filters → Filters → Bool
same_filters f g =
    str_eq f.search g.search && str_eq f.difficulty g.difficulty && str_eq f.tag g.tag

-- A filter that changes starts the effect, which sends a request.
unfoldable pub set_filters : Filters → ListPage → ListPage
unfolding query_of same_filters
set_filters f s =
    if same_filters f s.filters
    then s
    else record s { filters = f; waiting = s.waiting ++ query_of f ∷ [] }

unfoldable pub items_answered : Fetched (List ProblemItem) → List ListQuery → ListPage → ListPage
unfolding list_answered
items_answered r rest s = record s { items = list_answered r; waiting = rest }
