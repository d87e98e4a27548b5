-- ===== src/TaxIds/Samples.antt =====
-- The authorities' own examples, and the theorems at concrete inputs.
use film_bill.Base.{◌≡◌, refl, true, false, some, arith}
use film_bill.Base.Text.{lit}
use film_bill.TaxIds.{weighted, ch_uid_check_digit, uid_is_valid, abn_is_valid}
use film_bill.TaxIds.Mistyped.{WrongDigit, here, there}

checks :
    (ch_uid_check_digit (lit "10932255") ≡ some 1)
    × (uid_is_valid (lit "109322551") ≡ true)
    × (uid_is_valid (lit "109322552") ≡ false)
    × (abn_is_valid (lit "51824753556") ≡ true)
    × (abn_is_valid (lit "51824753557") ≡ false)
    × (abn_is_valid (lit "01300000000") ≡ true)
unfolding ch_uid_check_digit uid_is_valid abn_is_valid weighted lit
checks = (refl, refl, refl, refl, refl, refl)

wrong : WrongDigit (lit "51824753556") (lit "52824753556")
unfolding lit
wrong = there b'5' (here (lit "824753556") (λ e. absurd (omega (arith, e))) refl refl)
