-- ===== src/Numbering/Seed.antt =====
-- "Seeding" in apps/api/services/number_series.py: the series that every company starts with. `ids`
-- gives the new rows their primary keys.
pub mod Complete
use film_bill.Base.{
  ℕ, zero, suc, ◌+◌, Bool, true, false, not, Option, none, some, List, [], ◌∷◌, ◌++◌, map, nat_eq,
  ◌&&◌, select, contains, text_has_equality, if◌then◌else◌,
}
use film_bill.Base.Int.{ℤ, pos}
use film_bill.Base.Text.{Text, lit}
use film_bill.Numbering.Pattern.{reset_yearly, reset_never}
use film_bill.Numbering.Store.{Series, Store}

abbrev pub SeriesData : Type 0
SeriesData = record { document_type : Text; prefix : Text; name : Text }

abbrev entry : Text → Text → Text → SeriesData
entry t p n = record { document_type = t; prefix = p; name = n }

abbrev pub default_series : List SeriesData
default_series =
    entry (lit "quote") (lit "AN") (lit "Angebote")
    ∷ entry (lit "order_confirmation") (lit "AB") (lit "Auftragsbestätigungen")
    ∷ entry (lit "delivery_note") (lit "LS") (lit "Lieferscheine")
    ∷ entry (lit "invoice") (lit "AR") (lit "Ausgangsrechnungen")
    ∷ entry (lit "credit_note") (lit "KR") (lit "Rechnungskorrekturen")
    ∷ entry (lit "self_billing") (lit "GS") (lit "Gutschriften (Self-Billing)")
    ∷ entry (lit "dunning") (lit "MA") (lit "Mahnungen")
    ∷ entry (lit "letter") (lit "BR") (lit "Briefe")
    ∷ []

abbrev pub party_series : List SeriesData
party_series =
    entry (lit "customer") (lit "K") (lit "Kundennummern")
    ∷ entry (lit "supplier") (lit "L") (lit "Lieferantennummern")
    ∷ []

abbrev pub default_padding : ℤ
default_padding = pos 4

unfoldable pub yearly_row : ℕ → ℕ → SeriesData → Series
yearly_row company id d = record {
  id = id;
  company_id = company;
  document_type = d.document_type;
  name = d.name;
  pattern = d.prefix ++ lit "-{YYYY}-{SEQ}";
  reset = reset_yearly;
  next_value = 1;
  current_period = none;
  padding = default_padding;
  is_active = true;
}

unfoldable pub party_row : ℕ → ℕ → SeriesData → Series
party_row company id d = record {
  id = id;
  company_id = company;
  document_type = d.document_type;
  name = d.name;
  pattern = d.prefix ++ lit "-{SEQ}";
  reset = reset_never;
  next_value = 1;
  current_period = none;
  padding = default_padding;
  is_active = true;
}

-- The rows with the keys `first`, `first + 1`, …
unfoldable pub rows_from : (ℕ → SeriesData → Series) → ℕ → List SeriesData → List Series
rows_from row first [] = []
rows_from row first (d ∷ ds) = row first d ∷ rows_from row (first + 1) ds

unfoldable pub seed_rows : ℕ → ℕ → List Series
unfolding yearly_row party_row rows_from
seed_rows company first =
    rows_from (yearly_row company) first default_series
    ++ rows_from (party_row company) (first + 8) party_series

-- The document types for which the company has an active series.
unfoldable pub existing_types : ℕ → List Series → List Text
existing_types company [] = []
existing_types company (s ∷ rows) =
    let rest = existing_types company rows in
    if nat_eq s.company_id company && s.is_active then s.document_type ∷ rest else rest

unfoldable pub missing_rows : ℕ → ℕ → Store → List Series
unfolding seed_rows existing_types
missing_rows company first db =
    select (λ s. not (contains (existing_types company db.series) s.document_type))
      (seed_rows company first)

-- The store afterwards, and the rows created.
unfoldable pub seed_number_series : ℕ → ℕ → Store → Store × List Series
unfolding missing_rows
seed_number_series company first db =
    let created = missing_rows company first db in
    (record db { series = created ++ db.series }, created)
