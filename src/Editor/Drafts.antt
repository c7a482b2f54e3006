-- ===== src/Editor/Drafts.antt =====
-- The drafts of the page.
use judge.Base.{ℕ, String, ◌≡◌, true, false, ◌==◌, arith}
use judge.Editor.{Page, set_code, set_language, save_draft, code_in}

same : (n : ℕ) → (n == n) ≡ true
same n = ground arith

-- Another language and back again: the code that was written is there again, unless the languages
-- are the same one.
pub set_language_back :
    (code : String) (m : ℕ) (s : Page)
    → (m == s.language_id) ≡ false
    → (set_language s.language_id (set_language m (set_code code s))).code ≡ code
unfolding set_language set_code save_draft code_in
set_language_back code m s other = ground (arith, other, same m, same s.language_id)
