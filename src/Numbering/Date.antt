-- ===== src/Numbering/Date.antt =====
-- Calendar dates as `datetime.date` compares and prints them.
use film_bill.Base.{ℕ, Bool, ◌&&◌, ◌||◌, ◌++◌, ltb, nat_eq}
use film_bill.Base.Text.{Text, lit}
use film_bill.Base.Digits.{show, zfill}

pub record Date : Type 0 where
  pub year : ℕ
  pub month : ℕ
  pub day : ℕ

-- `d < e`
unfoldable pub date_ltb : Date → Date → Bool
date_ltb d e =
    ltb d.year e.year
    || (nat_eq d.year e.year
        && (ltb d.month e.month || (nat_eq d.month e.month && ltb d.day e.day)))

-- `f"{n:04d}"` and the like
unfoldable pub padded : ℕ → ℕ → Text
padded width n = zfill width (show n)

-- `d.isoformat()`
unfoldable pub iso_format : Date → Text
iso_format d = padded 4 d.year ++ lit "-" ++ padded 2 d.month ++ lit "-" ++ padded 2 d.day

-- `period_key`: the year, as four characters.
unfoldable pub period_key : Date → Text
period_key d = padded 4 d.year
