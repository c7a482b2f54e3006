-- ===== src/Admin/TagUpsert.antt =====
-- `ensureTags`.
use judge.Base.{
  ℕ, suc, String, ◌≡◌, refl, ◌∙◌, Bool, true, false, List, [], ◌∷◌, none, some, any, every, length,
  All, str_eq, eq_iff, Option-cases, inl, inr, arith, count, Bool-cases, ◌≤◌, if◌then◌else◌,
}
use judge.Schema.{Db, Tag}
use judge.Prisma.{Prisma, find_first}
use judge.Prisma.Rows.{
  any-insert, find_first-none, find_first_where, find_first-every, count-insert,
}
use judge.Admin.{ensure_tag, ensure_tags}

-- There is a tag with the name.
abbrev pub HasSlug : Db → String → Type 0
HasSlug db slug = any (λ (t : Tag). str_eq t.slug slug) db.tags ≡ true

abbrev pub HasId : Db → String → Type 0
HasId db id = any (λ (t : Tag). str_eq t.id id) db.tags ≡ true

-- No two tags share a name.
abbrev pub SlugsUnique : Db → Type 0
SlugsUnique db = (k : String) → count (λ (t : Tag). str_eq t.slug k) db.tags ≤ 1

module _ ⦃prisma : Prisma⦄ where
  any_of_found :
      (w q : Tag → Bool) (tags : List Tag) {t : Tag}
      → find_first w tags ≡ some t
      → q t ≡ true
      → any q tags ≡ true
  any_of_found w q tags {t} found h = elim (Bool-cases (any q tags)) [
    | inl e ↦ e
    | inr e ↦
        absurd (ground (arith, h, find_first-every w (λ r. not_q r) tags (none_pass tags e) found))
  ]
    where
      not_q : Tag → Bool
      not_q r = if q r then false else true

      none_pass : (rows : List Tag) → any q rows ≡ false → every not_q rows ≡ true
      none_pass [] e = refl
      none_pass (r ∷ rows) e = ground (arith, none_pass rows)

  any-ensure_tag :
      (q : Tag → Bool) (fresh slug : String) (db : Db)
      → any q db.tags ≡ true
      → any q (ensure_tag fresh slug db).1.tags ≡ true
  unfolding ensure_tag
  any-ensure_tag q fresh slug db h =
      ground (arith, any-insert q (record { id = fresh; slug = slug; name = slug }) db.tags)

  ensure_tag_there :
      (fresh slug : String) (db : Db)
      → HasSlug (ensure_tag fresh slug db).1 slug
        × HasId (ensure_tag fresh slug db).1 (ensure_tag fresh slug db).0
  unfolding ensure_tag
  ensure_tag_there fresh slug db =
      elim (Option-cases (find_first (λ (t : Tag). str_eq t.slug slug) db.tags)) [
        | inl missing ↦
            rw (missing, ensure_tag)
              (
                any-insert (λ t. str_eq t.slug slug)
                      (record { id = fresh; slug = slug; name = slug }) db.tags
                    ∙ ground (arith, eq_iff slug slug),
                any-insert (λ t. str_eq t.id fresh)
                      (record { id = fresh; slug = slug; name = slug }) db.tags
                    ∙ ground (arith, eq_iff fresh fresh),
              )
        | inr (t, found) ↦
            rw (found, ensure_tag)
              (
                any_of_found (λ t. str_eq t.slug slug) (λ t. str_eq t.slug slug) db.tags found
                    (find_first_where (λ t. str_eq t.slug slug) db.tags found),
                any_of_found (λ t. str_eq t.slug slug) (λ r. str_eq r.id t.id) db.tags found
                    (ground (arith, eq_iff t.id t.id)),
              )
      ]

  any-ensure_tags :
      (q : Tag → Bool) (fresh : ℕ → String) (i : ℕ) (slugs : List String) (db : Db)
      → any q db.tags ≡ true
      → any q (ensure_tags fresh i slugs db).1.tags ≡ true
  unfolding ensure_tags
  any-ensure_tags q fresh i [] db h = h
  any-ensure_tags q fresh i (s ∷ slugs) db h =
      any-ensure_tags q fresh (suc i) slugs (ensure_tag (fresh i) s db).1
        (any-ensure_tag q (fresh i) s db h)

  ensure_tags_slugs :
      (fresh : ℕ → String) (i : ℕ) (slugs : List String) (db : Db)
      → All (HasSlug (ensure_tags fresh i slugs db).1) slugs
  unfolding ensure_tags
  ensure_tags_slugs fresh i [] db = tt
  ensure_tags_slugs fresh i (s ∷ slugs) db =
      let db1 = (ensure_tag (fresh i) s db).1 in
      (
        any-ensure_tags (λ t. str_eq t.slug s) fresh (suc i) slugs db1
            (ensure_tag_there (fresh i) s db).0,
        ensure_tags_slugs fresh (suc i) slugs db1,
      )

  ensure_tags_ids :
      (fresh : ℕ → String) (i : ℕ) (slugs : List String) (db : Db)
      → All (HasId (ensure_tags fresh i slugs db).1) (ensure_tags fresh i slugs db).0
  unfolding ensure_tags
  ensure_tags_ids fresh i [] db = tt
  ensure_tags_ids fresh i (s ∷ slugs) db =
      let db1 = (ensure_tag (fresh i) s db).1 in
      (
        any-ensure_tags (λ t. str_eq t.id (ensure_tag (fresh i) s db).0) fresh (suc i) slugs db1
            (ensure_tag_there (fresh i) s db).1,
        ensure_tags_ids fresh (suc i) slugs db1,
      )

  length-ensure_tags :
      (fresh : ℕ → String) (i : ℕ) (slugs : List String) (db : Db)
      → length (ensure_tags fresh i slugs db).0 ≡ length slugs
  unfolding ensure_tags
  length-ensure_tags fresh i [] db = refl
  length-ensure_tags fresh i (s ∷ slugs) db =
      omega (arith, length-ensure_tags fresh (suc i) slugs (ensure_tag (fresh i) s db).1)

  -- Names stay unique.
  ensure_tag-SlugsUnique :
      (fresh slug : String) (db : Db) → SlugsUnique db → SlugsUnique (ensure_tag fresh slug db).1
  unfolding ensure_tag
  ensure_tag-SlugsUnique fresh slug db h k =
      elim (Option-cases (find_first (λ (t : Tag). str_eq t.slug slug) db.tags)) [
        | inl missing ↦
            rw
              (
                missing,
                ensure_tag,
                count-insert (λ (t : Tag). str_eq t.slug k)
                    (record { id = fresh; slug = slug; name = slug }) db.tags,
              )
              (ground (arith, h k, eq_iff slug k, no_other missing))
        | inr (t, found) ↦ rw (found, ensure_tag) (h k)
      ]
    where
      no_other :
          find_first (λ (t : Tag). str_eq t.slug slug) db.tags ≡ none
          → slug ≡ k
          → count (λ (t : Tag). str_eq t.slug k) db.tags ≡ 0
      no_other missing e =
          rw (← e) (find_first-none (λ (t : Tag). str_eq t.slug slug) db.tags missing)

  ensure_tags-SlugsUnique :
      (fresh : ℕ → String) (i : ℕ) (slugs : List String) (db : Db)
      → SlugsUnique db
      → SlugsUnique (ensure_tags fresh i slugs db).1
  unfolding ensure_tags
  ensure_tags-SlugsUnique fresh i [] db h = h
  ensure_tags-SlugsUnique fresh i (s ∷ slugs) db h =
      ensure_tags-SlugsUnique fresh (suc i) slugs (ensure_tag (fresh i) s db).1
        (ensure_tag-SlugsUnique (fresh i) s db h)

  -- `ensureTags` answers one identifier for each name, each of a tag that is there afterwards;
  -- each name has a tag afterwards, and names that were unique stay unique.
  pub ensure_tags_lem :
      (fresh : ℕ → String) (slugs : List String) (db : Db)
      → SlugsUnique db
      → (length (ensure_tags fresh 0 slugs db).0 ≡ length slugs)
        × All (HasId (ensure_tags fresh 0 slugs db).1) (ensure_tags fresh 0 slugs db).0
        × All (HasSlug (ensure_tags fresh 0 slugs db).1) slugs
        × SlugsUnique (ensure_tags fresh 0 slugs db).1
  ensure_tags_lem fresh slugs db h = (
    length-ensure_tags fresh 0 slugs db,
    ensure_tags_ids fresh 0 slugs db,
    ensure_tags_slugs fresh 0 slugs db,
    ensure_tags-SlugsUnique fresh 0 slugs db h,
  )
