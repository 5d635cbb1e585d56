-- ===== src/Verification/Tests.antt =====
-- A number submitted beside a verified user.
use pstu_final.Base.{false, some, ◌≡◌, refl, find_where, ◌==◌}
use pstu_final.Base.Text.{codes}
use pstu_final.Store.Rows.{User}
use pstu_final.Fixtures.{test_platform, test_env, test_db, test_user}
use pstu_final.Verification.{submit_nid, simulate_nid_check, mask_nid}
use pstu_final.Verification.Final.{submit_nid_final}

rejects_ten : simulate_nid_check (codes "1000000009") ≡ false
unfolding simulate_nid_check
rejects_ten = refl

masks : mask_nid (codes "1234567890") ≡ codes "••••••7890"
unfolding mask_nid
masks = refl

submit_nid_final_example :
    find_where
      (λ (u : User). u.id == 2)
      (submit_nid test_platform
        (λ t. "masked")
        (test_env 700)
        1
        (codes "1234567890")
        test_db).1.users
    ≡ some (test_user 2)
submit_nid_final_example =
    submit_nid_final test_platform (λ t. "masked") (test_env 700) 1 (codes "1234567890") test_db
      (test_user 2) refl refl
