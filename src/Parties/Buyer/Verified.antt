-- ===== src/Parties/Buyer/Verified.antt =====
-- A buyer counts as verified only by the number that the document carries, and as a business by what
-- is known of it.
use film_bill.Base.{
  ◌≡◌, ◌≢◌, refl, ◌⊎◌, inl, inr, ◌↔◌, true, false, Option, none, some, List, [], ◌∷◌, arith, Member,
  text_eq, text_eq_iff,
}
use film_bill.Base.Text.{lit}
use film_bill.Parties.Levels.{Dict, PartyLevel, text_has_presence, is_present}
use film_bill.Parties.Resolver.{ResolvedRecipient, filled_dict, resolve_recipient}
use film_bill.Parties.Resolver.SameLevel.{IsDistinct, IsConsistent, resolve_recipient-IsConsistent}
use film_bill.Parties.Buyer.{
  BuyerInputs, private_buyer, business, status_of, is_inside, recipient_buyer_type, tax_inputs,
}

-- The party whose verified number the buyer relies on.
pub record Relies (level : PartyLevel) (r : ResolvedRecipient) (b : BuyerInputs) : Type 0 where
  pub has_number : is_present level.vat_id ≡ true
  pub vat_id : r.vat_id.value ≡ level.vat_id
  pub vat_verified : level.vat_verified ≡ true
  pub tax_id_evidence : b.tax_id_evidence ≡ filled_dict level.tax_id_evidence

filled_dict_idem : (d : Option Dict) → filled_dict (filled_dict d) ≡ filled_dict d
filled_dict_idem none = refl
filled_dict_idem (some []) = refl
filled_dict_idem (some (e ∷ d)) = refl

verified_by :
    (chain : List PartyLevel) (r : ResolvedRecipient)
    → IsConsistent chain r
    → (tax_inputs r).buyer_vat_verified ≡ true
    → (level : PartyLevel) × (Member level chain × Relies level r (tax_inputs r))
unfolding tax_inputs
verified_by chain r (inl n) h =
    let clash : false ≡ true = rw (n.vat_verified) at h in absurd (ground arith)
verified_by chain r (inr (level, (m, n))) h =
    let verified : level.vat_verified ≡ true = rw (n.vat_verified) at h in
    (
      level,
      (
        m,
        record {
          has_number = n.has_number;
          vat_id = n.vat_id;
          vat_verified = verified;
          tax_id_evidence =
              rw (n.vat_verified, verified, n.tax_id_evidence)
                (filled_dict_idem level.tax_id_evidence);
        },
      ),
    )

-- In a chain of distinct levels, a buyer counts as verified only if one party of the chain has a
-- number that is verified, that number is the one on the document, and the evidence is that party's.
pub tax_inputs-Relies :
    (own : PartyLevel) (above : List PartyLevel)
    → IsDistinct (own ∷ above)
    → (tax_inputs (resolve_recipient own above)).buyer_vat_verified ≡ true
    → (level : PartyLevel) × (Member level (own ∷ above)
        × Relies level (resolve_recipient own above) (tax_inputs (resolve_recipient own above)))
tax_inputs-Relies own above distinct h =
    verified_by (own ∷ above) (resolve_recipient own above)
      (resolve_recipient-IsConsistent own above distinct) h

differ : text_eq private_buyer business ≡ false
unfolding text_eq lit
differ = refl

-- A buyer is a business exactly if it is said to be one, or it is not said to be private and it is
-- an organisation, stands below one or a department, or has a number.
pub recipient_buyer_type_iff :
    (r : ResolvedRecipient)
    → ((recipient_buyer_type r).0 ≡ business) ↔ (
        (status_of r ≡ business)
        ⊎ ((status_of r ≢ private_buyer)
            × ((is_inside r ≡ true) ⊎ (is_present r.vat_id.value ≡ true))))
unfolding recipient_buyer_type
recipient_buyer_type_iff r = ground (
  arith,
  text_eq_iff (status_of r) private_buyer,
  text_eq_iff (status_of r) business,
  text_eq_iff private_buyer business,
  differ,
)
