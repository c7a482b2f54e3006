-- ===== src/Callback/Signed.antt =====
-- Who can make the callback write: only the holder of the secret.
use Prim.Native.String.{len}
use judge.Base.{
  ℕ, String, ◌≡◌, ap, ◌∙◌, ◌≢◌, ◌⊎◌, inl, inr, true, false, Option, none, some, truthy, str_eq,
  eq_iff, Bool-cases, Option-cases, arith,
}
use judge.Schema.{Db}
use judge.Prisma.{Prisma}
use judge.Http.{other_error, ok, throws}
use judge.Judge0.{Base64}
use judge.Submit.Signing.{Crypto, signature, len-signature}
use judge.Callback.{
  Query, Body, Rounding, ended, rejected, timing_safe_equal, check_signature, callback,
}

-- The query names a submission and a case, and carries their signature.
abbrev pub IsSigned : Crypto → Option String → Query → String → String → Type 0
IsSigned crypto secret q s c =
    (q.sub_id ≡ some s) × (q.case_id ≡ some c) × (q.sig ≡ some (signature crypto secret s c))

truthy-some : (o : Option String) {s : String} → truthy o ≡ some s → o ≡ some s
truthy-some none e = e
truthy-some (some t) e = elim (Bool-cases (str_eq t "")) [
  | inl h ↦ absurd (ground arith)
  | inr h ↦ ground arith
]

truthy_of_ne : (s : String) → s ≢ "" → truthy (some s) ≡ some s
truthy_of_ne s h = ground (arith, eq_iff s "")

timing_safe_equal_cases :
    (a b : String)
    → (timing_safe_equal a b ≡ throws other_error)
      ⊎ (timing_safe_equal a b ≡ ok false)
      ⊎ ((timing_safe_equal a b ≡ ok true) × (a ≡ b))
unfolding timing_safe_equal
timing_safe_equal_cases a b = ground (arith, eq_iff a b)

timing_safe_equal_self : (a : String) → timing_safe_equal a a ≡ ok true
unfolding timing_safe_equal
timing_safe_equal_self a = ground (arith, eq_iff a a)

signature-ne-empty :
    (crypto : Crypto) (secret : Option String) (s c : String) → signature crypto secret s c ≢ ""
unfolding signature
signature-ne-empty crypto secret s c e =
    absurd (omega (arith, ap len e, len-signature crypto secret s c))

unequal_length :
    (crypto : Crypto) (secret : Option String) (s c sig : String)
    → len sig ≢ 64
    → timing_safe_equal sig (signature crypto secret s c) ≡ throws other_error
unfolding timing_safe_equal
unequal_length crypto secret s c sig h = ground (arith, len-signature crypto secret s c)

-- What the guard of the handler can answer.
pub check_signature_cases :
    (crypto : Crypto) (secret : Option String) (q : Query)
    → (check_signature crypto secret q ≡ ok none)
      ⊎ (check_signature crypto secret q ≡ throws other_error)
      ⊎ ((s : String) × (c : String) × (check_signature crypto secret q ≡ ok (some (s, c)))
          × IsSigned crypto secret q s c)
unfolding check_signature
check_signature_cases crypto secret q = elim (Option-cases (truthy q.sub_id)) [
  | inl e ↦ inl (rw (e, check_signature))
  | inr (s, es) ↦ elim (Option-cases (truthy q.case_id)) [
    | inl e ↦ inl (rw (es, e, check_signature))
    | inr (c, ec) ↦ elim (Option-cases (truthy q.sig)) [
      | inl e ↦ inl (rw (es, ec, e, check_signature))
      | inr (sig, eg) ↦ elim (timing_safe_equal_cases sig (signature crypto secret s c)) [
        | inl e ↦ inr (inl (rw (es, ec, eg, e, check_signature)))
        | inr (inl e) ↦ inl (rw (es, ec, eg, e, check_signature))
        | inr (inr (e, same)) ↦ inr (
            inr (
              s,
              c,
              rw (es, ec, eg, e, check_signature),
              (
                truthy-some q.sub_id es,
                truthy-some q.case_id ec,
                truthy-some q.sig eg ∙ ap some same,
              ),
            ))
      ]
    ]
  ]
]

-- A request to the callback writes nothing, and is answered by 401 or not at all, unless it
-- carries the signature of the submission and the case that it names.
pub callback-IsSigned :
    ⦃prisma : Prisma⦄
    → (crypto : Crypto) (secret : Option String) (base64 : Base64) (to_ms : Rounding) (q : Query)
      (body : Body) (now : ℕ) (db : Db)
    → (callback crypto secret base64 to_ms q body now db ≡ (ended 401, db))
      ⊎ (callback crypto secret base64 to_ms q body now db ≡ (rejected other_error, db))
      ⊎ ((s : String) × (c : String) × IsSigned crypto secret q s c)
unfolding callback
callback-IsSigned crypto secret base64 to_ms q body now db =
    elim (check_signature_cases crypto secret q) [
      | inl e ↦ inl (rw (e, callback))
      | inr (inl e) ↦ inr (inl (rw (e, callback)))
      | inr (inr (s, c, e, h)) ↦ inr (inr (s, c, h))
    ]

-- With two identifiers that are not empty, a signature that is neither empty nor 64 bytes long
-- makes the handler throw outside every `try`: no answer is sent, the promise is rejected, and
-- nothing is written.
pub callback_bad_length :
    ⦃prisma : Prisma⦄
    → (crypto : Crypto) (secret : Option String) (base64 : Base64) (to_ms : Rounding)
      (s c sig : String) (body : Body) (now : ℕ) (db : Db)
    → s ≢ ""
    → c ≢ ""
    → sig ≢ ""
    → len sig ≢ 64
    → callback crypto secret base64 to_ms
        (record { sub_id = some s; case_id = some c; sig = some sig })
        body
        now
        db
      ≡ (rejected other_error, db)
unfolding callback check_signature
callback_bad_length crypto secret base64 to_ms s c sig body now db hs hc hg hl = rw (
  truthy_of_ne s hs,
  truthy_of_ne c hc,
  truthy_of_ne sig hg,
  unequal_length crypto secret s c sig hl,
  callback,
  check_signature,
)

-- The signature that `submit` puts into the URL of a case passes the guard, with the same secret
-- and identifiers that are not empty.
pub check_signature-signature :
    (crypto : Crypto) (secret : Option String) (s c : String)
    → s ≢ ""
    → c ≢ ""
    → check_signature crypto secret
        (record { sub_id = some s; case_id = some c; sig = some (signature crypto secret s c) })
      ≡ ok (some (s, c))
unfolding check_signature
check_signature-signature crypto secret s c hs hc = rw (
  truthy_of_ne s hs,
  truthy_of_ne c hc,
  truthy_of_ne (signature crypto secret s c) (signature-ne-empty crypto secret s c),
  timing_safe_equal_self (signature crypto secret s c),
  check_signature,
)
