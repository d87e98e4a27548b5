-- ===== src/Tax/Regions.antt =====
-- Where a buyer is, relative to the seller (apps/api/billing/tax/regions.py).
use film_bill.Base.{
  ◌&&◌, ◌||◌, Option, none, some, List, [], ◌∷◌, if◌then◌else◌, text_eq, contains,
  text_has_equality,
}
use film_bill.Base.Text.{Text, lit, strip, upper, is_empty}

-- SAME_COUNTRY, EU_OTHER and NON_EU
pub data Region : Type 0 where
  same_country : Region
  eu_other : Region
  non_eu : Region

abbrev pub region_text : Region → Text
region_text same_country = lit "same_country"
region_text eu_other = lit "eu_other"
region_text non_eu = lit "non_eu"

abbrev pub eu_member_states : List Text
eu_member_states =
    lit "AT"
    ∷ lit "BE"
    ∷ lit "BG"
    ∷ lit "CY"
    ∷ lit "CZ"
    ∷ lit "DE"
    ∷ lit "DK"
    ∷ lit "EE"
    ∷ lit "ES"
    ∷ lit "FI"
    ∷ lit "FR"
    ∷ lit "GR"
    ∷ lit "HR"
    ∷ lit "HU"
    ∷ lit "IE"
    ∷ lit "IT"
    ∷ lit "LT"
    ∷ lit "LU"
    ∷ lit "LV"
    ∷ lit "MT"
    ∷ lit "NL"
    ∷ lit "PL"
    ∷ lit "PT"
    ∷ lit "RO"
    ∷ lit "SE"
    ∷ lit "SI"
    ∷ lit "SK"
    ∷ []

-- `country.strip().upper()`
unfoldable pub country_code : Text → Text
country_code s = upper (strip s)

abbrev pub compare_countries : List Text → Text → Text → Option Region
compare_countries members seller buyer =
    if is_empty seller || is_empty buyer
    then none
    else if text_eq seller buyer
    then some same_country
    else if contains members buyer && contains members seller
    then some eu_other
    else some non_eu

unfoldable pub region_of : List Text → Option Text → Option Text → Option Region
region_of members none buyer_country = none
region_of members (some seller_country) none = none
region_of members (some seller_country) (some buyer_country) =
    if is_empty seller_country || is_empty buyer_country
    then none
    else compare_countries members (country_code seller_country) (country_code buyer_country)
