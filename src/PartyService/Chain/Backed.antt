-- ===== src/PartyService/Chain/Backed.antt =====
-- What a document to a party of the tree relies on: the chain of apps/api/services/party_service.py, the
-- resolver and the inputs of the tax decision, put together.
use film_bill.Base.{◌≡◌, refl, ap, ◌∙◌, inl, inr, ℕ, true, some, List, [], ◌∷◌, map, Member}
use mathlib.Core.Option.{some-injective}
use mathlib.Core.Path.{subst}
use film_bill.Parties.Levels.{PartyLevel}
use film_bill.Parties.Resolver.{ResolvedRecipient, filled_dict, resolve_recipient}
use film_bill.Parties.Resolver.SameLevel.{IsDistinct}
use film_bill.Parties.Buyer.{tax_inputs}
use film_bill.Parties.Buyer.Verified.{Relies, tax_inputs-Relies}
use film_bill.PartyService.Rows.{Party, find_party}
use film_bill.PartyService.Hierarchy.{IsTree}
use film_bill.PartyService.Evidence.{PartyTaxId, PartyVatCheck, evidence_entry}
use film_bill.PartyService.Evidence.Verified.{IsBacked, vat_is_verified-IsBacked}
use film_bill.PartyService.Chain.{
  PartyBook, level_of, number_value, chain_of, build_chain, resolve_chain, resolve,
}
use film_bill.PartyService.Chain.Climbs.{build_chain-Climbs}

Member-map :
    {A B : Type 0} (f : A → B) (xs : List A) (b : B)
    → Member b (map f xs)
    → (a : A) × Member a xs × (b ≡ f a)
Member-map f [] b m = absurd m
Member-map f (x ∷ xs) b (inl here) = (x, inl refl, here)
Member-map f (x ∷ xs) b (inr there) = let (a, m, same) = Member-map f xs b there in (a, inr m, same)

resolve_chain-Relies :
    (chain : List PartyLevel) (r : ResolvedRecipient)
    → IsDistinct chain
    → resolve_chain chain ≡ some r
    → (tax_inputs r).buyer_vat_verified ≡ true
    → (level : PartyLevel) × (Member level chain × Relies level r (tax_inputs r))
resolve_chain-Relies [] r distinct h verified = cc
resolve_chain-Relies (own ∷ above) r distinct h verified =
    let same : resolve_recipient own above ≡ r = some-injective _ _ h in
    subst
      (λ x.
        (tax_inputs x).buyer_vat_verified ≡ true
        → (level : PartyLevel) × (Member level (own ∷ above) × Relies level x (tax_inputs x)))
      same (tax_inputs-Relies own above distinct) verified

filled-evidence_entry :
    (t : PartyTaxId) (c : PartyVatCheck)
    → filled_dict (some (evidence_entry t c)) ≡ some (evidence_entry t c)
unfolding evidence_entry
filled-evidence_entry t c = refl

-- In a tree, a document to a stored party treats the buyer as verified only if the party itself or one
-- above it is verified by its own active primary number and the latest completed check of it, valid, not
-- too old and no manual one of a VAT ID; the number on the document is that number, and the evidence is
-- that check.
pub resolve-IsBacked :
    (book : PartyBook) (now : ℕ) (p : Party) (r : ResolvedRecipient)
    → IsTree book.parties
    → find_party p.company_id p.id book.parties ≡ some p
    → resolve book now p ≡ some r
    → (tax_inputs r).buyer_vat_verified ≡ true
    → (q : Party) × (t : PartyTaxId) × (c : PartyVatCheck) × Member q (chain_of book p)
      × IsBacked book.evidence q now t c
      × (r.vat_id.value ≡ some t.value)
      × ((tax_inputs r).tax_id_evidence ≡ some (evidence_entry t c))
unfolding resolve build_chain level_of
resolve-IsBacked book now p r tree found h verified =
    let (way, few, distinct) = build_chain-Climbs book now p tree found in
    let (level, (m, relies)) =
      resolve_chain-Relies (build_chain book now p) r distinct h verified in
    let (q, above, same) = Member-map (level_of book now) (chain_of book p) level m in
    let relies' : Relies (level_of book now q) r (tax_inputs r) = rw same at relies in
    let (t, c, backed, evidence) =
      (vat_is_verified-IsBacked book.evidence q now).1 relies'.vat_verified in
    (
      q,
      t,
      c,
      above,
      backed,
      relies'.vat_id ∙ ap number_value backed.primary,
      relies'.tax_id_evidence ∙ (ap filled_dict evidence ∙ filled-evidence_entry t c),
    )
