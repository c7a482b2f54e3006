-- ===== src/Tests/Forms.antt =====
-- The form of a problem, and the forms that send one request.
use judge.Base.{
  ◌≡◌, refl, String, Bool, true, false, ◌&&◌, [], ◌∷◌, Option, none, some, count, str_eq, arith,
}
use judge.Schema.{Problem}
use judge.Prisma.Memory.{memory}
use judge.Text.{min_length, max_length, every_char}
use judge.Accounts.{RegisterBody, register_checks, is_name_char}
use judge.Admin.{replace_problem}
use judge.Admin.Data.{CaseData, StarterData}
use judge.Admin.Replace.{of_problem}
use judge.AdminForm.{empty_form, payload, case_data, starter_data}
use judge.AdminForm.Saving.{IsOnly, saved, starts, save_untouched, constraints_stay}
use judge.Web.Forms.{browser_allows}
use judge.Web.Registering.{register_checks-allowed}
use judge.Tests.World.{db, fresh, sum_problem}

IsOnly-sum : IsOnly sum_problem db.problems
IsOnly-sum = (λ e. refl, (λ e. absurd (ground arith), tt))

abbrev any_problem : Problem → Bool
any_problem p = p.is_published

abbrev any_case : CaseData → Bool
any_case c = str_eq c.expected_output "4"

abbrev any_starter : StarterData → Bool
any_starter s = true

save_untouched_example :
    (count any_problem (saved ⦃prisma = memory⦄ fresh sum_problem ("g1" ∷ []) db).problems
      ≡ count any_problem db.problems)
    × (count
          (λ t. of_problem "p1" t && any_case (case_data t))
          (saved ⦃prisma = memory⦄ fresh sum_problem ("g1" ∷ []) db).test_cases
        ≡ count (λ t. of_problem "p1" t && any_case (case_data t)) db.test_cases)
    × (count
          (λ s. starts "p1" s && any_starter (starter_data s))
          (saved ⦃prisma = memory⦄ fresh sum_problem ("g1" ∷ []) db).starter_codes
        ≡ count (λ s. starts "p1" s && any_starter (starter_data s)) db.starter_codes)
save_untouched_example =
    save_untouched ⦃prisma = memory⦄ fresh sum_problem ("g1" ∷ []) db any_problem any_case
      any_starter IsOnly-sum

abbrev small : String → Option String → Bool
small id c = elim c [ none ↦ false | some text ↦ str_eq text "small" ]

constraints_stay_example :
    count
      (λ (r : Problem). small r.id r.constraints_md)
      (replace_problem ⦃prisma = memory⦄ fresh "p1" (payload empty_form) [] db).problems
    ≡ count (λ (r : Problem). small r.id r.constraints_md) db.problems
unfolding empty_form
constraints_stay_example =
    constraints_stay ⦃prisma = memory⦄ fresh sum_problem [] db empty_form small refl

abbrev bob : RegisterBody
bob = record { email = "bob@x.org"; username = "bob_1"; password = "password" }

abbrev anything : String → Bool
anything s = true

register_checks-allowed_example :
    register_checks anything bob
    ≡ (anything "bob@x.org" && every_char is_name_char "bob_1" && max_length 128 "password")
unfolding browser_allows min_length max_length every_char
register_checks-allowed_example = register_checks-allowed anything anything bob refl
