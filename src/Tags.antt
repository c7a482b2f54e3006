-- ===== src/Tags.antt =====
-- platform/backend/src/routes/tags.ts. The order of names is the database's collation.
use judge.Base.{ℕ, String, Bool, true, List, map, length, str_eq}
use judge.Schema.{Db, Tag, ProblemTag}
use judge.Prisma.{Prisma}
use judge.Http.{Reply, json, pure, gets, respond, ◌>>=◌}

pub record TagItem : Type 0 where
  pub slug : String
  pub name : String
  pub problem_count : ℕ

module _ ⦃prisma : Prisma⦄ (collate : String → String → Bool) where
  tag_item : Db → Tag → TagItem
  tag_item db t = record {
    slug = t.slug;
    name = t.name;
    problem_count =
        length (prisma.find_many (λ (pt : ProblemTag). str_eq pt.tag_id t.id) db.problem_tags);
  }

  unfoldable pub tag_items : Db → List TagItem
  unfolding tag_item
  tag_items db = map (tag_item db) (
      prisma.order_by (λ (s : Tag) (t : Tag). collate s.name t.name)
        (prisma.find_many (λ (t : Tag). true) db.tags))

  -- GET /
  unfoldable pub list_tags : Db → Reply (List TagItem) × Db
  list_tags = respond do items ← gets tag_items; pure (json 200 items)
