-- ===== src/Languages.antt =====
-- platform/backend/src/routes/languages.ts: a cache in the process, over Judge0's list.
pub mod Freshness
use judge.Base.{ℕ, ◌-◌, Bool, true, not, List, Option, none, some, filter, ltb, if◌then◌else◌}
use judge.Http.{Reply, json, error_handler, other_error, Result, ok, throws}
use judge.Judge0.{Service, Language, list_languages}

pub record Cache : Type 0 where
  pub at : ℕ
  pub entries : List Language

-- five minutes
abbrev pub ttl_ms : ℕ
ttl_ms = 300000

-- `!cache || Date.now() - cache.at > TTL_MS`
unfoldable pub is_stale : ℕ → Option Cache → Bool
is_stale now none = true
is_stale now (some c) = ltb ttl_ms (now - c.at)

abbrev pub is_active : Language → Bool
is_active l = not l.is_archived

-- GET /; the state is the variable `cache`, and `done` is the time when the list has arrived.
module _ (service : Service) (now done : ℕ) where
  refresh : Option Cache → Reply (List Language) × Option Cache
  refresh cache = elim (list_languages service) [
    | throws e ↦ (error_handler e, cache)
    | ok langs ↦ (
      json 200 (filter is_active langs),
      some (record { at = done; entries = filter is_active langs }),
    )
  ]

  served : Option Cache → Reply (List Language) × Option Cache
  served none = (error_handler other_error, none)
  served (some c) = (json 200 c.entries, some c)

  unfoldable pub get_languages : Option Cache → Reply (List Language) × Option Cache
  unfolding refresh served
  get_languages cache = if is_stale now cache then refresh cache else served cache
