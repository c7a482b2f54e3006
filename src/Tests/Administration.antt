-- ===== src/Tests/Administration.antt =====
-- The admin router.
use judge.Base.{◌≢◌, ◌≡◌, true, not, ◌&&◌, [], ◌∷◌, some, count, str_eq}
use judge.Schema.{Role}
use judge.Prisma.Memory.{memory}
use judge.Admin.{
  admin_list, admin_get, admin_create, admin_update, admin_delete, replace_problem, tests_problem,
}
use judge.Admin.Access.{IsRefused, admin_IsRefused}
use judge.Admin.Data.{content}
use judge.Admin.Replace.{of_problem, replace_problem_cases}
use judge.Tests.World.{alice, db, fresh, new_data}

no_admin : Role.user ≢ Role.admin
no_admin e = cc

admin_IsRefused_example :
    IsRefused db (admin_list ⦃prisma = memory⦄ (some alice) db)
    × IsRefused db (admin_get ⦃prisma = memory⦄ (some alice) "p1" db)
    × IsRefused db (admin_create ⦃prisma = memory⦄ fresh (some alice) "p1" 10 (some new_data) db)
    × IsRefused db (admin_update ⦃prisma = memory⦄ fresh (some alice) "p1" (some new_data) db)
    × IsRefused db (admin_delete ⦃prisma = memory⦄ (some alice) "p1" db)
admin_IsRefused_example =
    admin_IsRefused ⦃prisma = memory⦄ fresh (some alice) "p1" 10 (some new_data) db no_admin

replace_problem_cases_example :
    (count
        (λ t. of_problem "p1" t && str_eq (content t).expected_output "1")
        (replace_problem ⦃prisma = memory⦄ fresh "p1" new_data ("g1" ∷ []) db).test_cases
      ≡ count (λ c. str_eq c.expected_output "1") new_data.test_cases)
    × (count
          (λ t. true && not (of_problem "p1" t))
          (replace_problem ⦃prisma = memory⦄ fresh "p1" new_data ("g1" ∷ []) db).test_cases
        ≡ 0)
    × (count
          (tests_problem db "p1")
          (replace_problem ⦃prisma = memory⦄ fresh "p1" new_data ("g1" ∷ []) db).submission_cases
        ≡ 0)
replace_problem_cases_example =
    replace_problem_cases ⦃prisma = memory⦄ fresh "p1" new_data ("g1" ∷ []) db
      (λ c. str_eq c.expected_output "1") (λ t. true)
