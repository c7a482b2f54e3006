-- ===== src/Judge0/Coding.antt =====
-- What the coding of texts keeps on the way to Judge0 and back.
use judge.Base.{
  String, ◌≡◌, refl, sym, ap, ◌∙◌, Option, none, some, or_else, str_eq, eq_iff, Bool-cases, inl,
  inr,
}
use mathlib.Core.Option
use judge.Judge0.{Base64, RawResult, from_b64, decode_result}

module _ (base64 : Base64) where
  -- A text that Judge0 encoded is read back; a missing one reads as the empty text.
  from_b64-encode :
      (o : Option String) → from_b64 base64 (Option.map base64.encode o) ≡ or_else o ""
  unfolding from_b64
  from_b64-encode none = refl
  from_b64-encode (some s) = elim (Bool-cases (str_eq (base64.encode s) "")) [
    | inl e ↦
        rw (e, from_b64)
          (sym base64.decode-empty
            ∙ sym (ap base64.decode ((eq_iff _ _).0 e))
            ∙ base64.decode-encode s)
    | inr e ↦ rw (e, from_b64) (base64.decode-encode s)
  ]

  -- What Judge0 sends for a result: its texts encoded.
  abbrev pub encoded : RawResult → RawResult
  encoded r = record r {
    stdout = Option.map base64.encode r.stdout;
    stderr = Option.map base64.encode r.stderr;
    compile_output = Option.map base64.encode r.compile_output;
    message = Option.map base64.encode r.message;
  }

  -- A result that Judge0 sends encoded is decoded to the same result, with the empty text for each
  -- text that is missing.
  pub decode_result-encoded :
      (r : RawResult)
      → decode_result base64 (encoded r) ≡ record {
        token = r.token;
        status = r.status;
        stdout = or_else r.stdout "";
        stderr = or_else r.stderr "";
        compile_output = or_else r.compile_output "";
        message = or_else r.message "";
        time = r.time;
        memory = r.memory;
        exit_code = r.exit_code;
      }
  unfolding decode_result
  decode_result-encoded r = λ i. record {
    token = r.token;
    status = r.status;
    stdout = from_b64-encode r.stdout i;
    stderr = from_b64-encode r.stderr i;
    compile_output = from_b64-encode r.compile_output i;
    message = from_b64-encode r.message i;
    time = r.time;
    memory = r.memory;
    exit_code = r.exit_code;
  }
