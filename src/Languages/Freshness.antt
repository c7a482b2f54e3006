-- ===== src/Languages/Freshness.antt =====
-- When the cache answers.
use judge.Base.{
  ℕ, ◌-◌, ◌≤◌, ◌≡◌, refl, ◌+◌, true, false, List, some, Option, every, every-filter, filter, arith,
  ltb,
}
use judge.Http.{json, ok}
use judge.Judge0.{Service, Language, list_languages}
use judge.Languages.{Cache, get_languages, is_stale, is_active, ttl_ms}

get_languages_fresh :
    (service : Service) (now done : ℕ) (c : Cache)
    → now - c.at ≤ ttl_ms
    → get_languages service now done (some c) ≡ (json 200 c.entries, some c)
unfolding get_languages is_stale
get_languages_fresh service now done c h = rw (not_later (now - c.at) h) refl
  where
    not_later : (age : ℕ) → age ≤ ttl_ms → ltb ttl_ms age ≡ false
    not_later age h = ground arith

get_languages_asked :
    (service : Service) (now done : ℕ) (cache : Option Cache) (langs : List Language)
    → is_stale now cache ≡ true
    → list_languages service ≡ ok langs
    → get_languages service now done cache ≡ (
      json 200 (filter is_active langs),
      some (record { at = done; entries = filter is_active langs }),
    )
unfolding get_languages list_languages
get_languages_asked service now done cache langs stale answer = ground (arith, stale, answer)

-- Where there is no cache, or it is older than five minutes, Judge0's list is asked for, and its
-- active languages are the answer, none of them archived; until five minutes after the list has
-- arrived every request gets the same answer, whatever the service would say, and the cache stays.
pub get_languages_cached :
    (service : Service) (now done : ℕ) (cache : Option Cache) (langs : List Language)
    → is_stale now cache ≡ true
    → list_languages service ≡ ok langs
    → (other : Service) (later done' : ℕ) → later ≤ done + ttl_ms
    → (get_languages other later done' (get_languages service now done cache).1
        ≡ get_languages service now done cache)
      × ((get_languages service now done cache).0 ≡ json 200 (filter is_active langs))
      × (every is_active (filter is_active langs) ≡ true)
get_languages_cached service now done cache langs stale answer other later done' h = (
  rw (get_languages_asked service now done cache langs stale answer) (
      get_languages_fresh other later done' (record { at = done; entries = filter is_active langs })
        (omega (arith, h))),
  rw (get_languages_asked service now done cache langs stale answer) refl,
  every-filter is_active langs,
)
