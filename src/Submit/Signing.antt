-- ===== src/Submit/Signing.antt =====
-- The signature of a callback URL. HMAC is Node's; its hexadecimal SHA-256 digest has 64 bytes.
use Prim.Native.String.{len}
use judge.Base.{String, ◌≡◌, Option, [], ◌∷◌, or_else}
use judge.Text.{concat}

pub record Crypto : Type 0 where
  pub hmac : String → String → String
  pub len-hmac : (key message : String) → len (hmac key message) ≡ 64

-- `createHmac('sha256', secret ?? '').update(`${subId}:${caseId}`).digest('hex')`
unfoldable pub signature : Crypto → Option String → String → String → String
signature crypto secret sub_id case_id =
    crypto.hmac (or_else secret "") (concat (sub_id ∷ ":" ∷ case_id ∷ []))

-- A signature is as long as a digest.
pub len-signature :
    (crypto : Crypto) (secret : Option String) (sub_id case_id : String)
    → len (signature crypto secret sub_id case_id) ≡ 64
unfolding signature
len-signature crypto secret sub_id case_id = crypto.len-hmac _ _
