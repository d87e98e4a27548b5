-- ===== src/PartyService/Chain/Climbs.antt =====
-- In a tree, the chain of a party is the whole way up to the top.
use film_bill.Base.{
  ◌≡◌, refl, sym, ap, ◌∙◌, inl, inr, ℕ, zero, suc, ◌+◌, ◌≤◌, ◌<◌, true, false, Option, none, some,
  List, [], ◌∷◌, map, nat_eq, arith, Bool-cases, All, All-map_of, contains, ℕ_has_equality, length,
}
use mathlib.Core.Option.{some-injective}
use film_bill.Parties.Levels.{Level, person, department, organisation, level_has_equality}
use film_bill.Parties.Resolver.SameLevel.{IsDistinct, IsElsewhere}
use film_bill.PartyService.Rows.{Party, find_party, parent_row, found-Member}
use film_bill.PartyService.Tree.{allowed_parents}
use film_bill.PartyService.Hierarchy.{IsPlaced, IsTree}
use film_bill.PartyService.Chain.{PartyBook, level_of, ancestors, chain_of, build_chain}

abbrev rank : Level → ℕ
rank person = 0
rank department = 1
rank organisation = 2

parent-rank : (k above : Level) → contains (allowed_parents k) above ≡ true → rank k < rank above
parent-rank k above h = ground arith

-- A list is the way from a row to the top: the row, then the way from its parent, and the kinds rise.
abbrev pub Climbs : ℕ → List Party → Option Party → List Party → Type 0
Climbs company_id rows none [] = Unit {0}
Climbs company_id rows none (q ∷ qs) = ⊥
Climbs company_id rows (some p) [] = ⊥
Climbs company_id rows (some p) (q ∷ qs) =
    (q ≡ p)
    × All (λ (r : Party). rank p.kind < rank r.kind) qs
    × Climbs company_id rows (parent_row company_id p.parent_id rows) qs

-- A row that has been passed is of a lower kind.
abbrev Passed : ℕ → List Party → ℕ → List ℕ → Type 0
Passed company_id rows height seen =
    All (λ id. (q : Party) × (find_party company_id id rows ≡ some q) × (rank q.kind < height)) seen

not_seen :
    (company_id : ℕ) (rows : List Party) (p : Party) (seen : List ℕ)
    → find_party company_id p.id rows ≡ some p
    → Passed company_id rows (rank p.kind) seen
    → contains seen p.id ≡ false
not_seen company_id rows p [] found passed = refl
not_seen company_id rows p (id ∷ seen) found ((q, there, low), passed) =
    elim (Bool-cases (nat_eq p.id id)) [
      | inr e ↦ rw e (not_seen company_id rows p seen found passed)
      | inl e ↦
          let same_id : id ≡ p.id = ground arith in
          let there' : find_party company_id p.id rows ≡ some q = rw same_id at there in
          let same : q ≡ p = some-injective _ _ (sym there' ∙ found) in
          let low' : rank p.kind < rank p.kind = rw same at low in absurd (omega arith)
    ]

Passed-higher :
    (company_id : ℕ) (rows : List Party) (low high : ℕ) (seen : List ℕ)
    → low < high
    → Passed company_id rows low seen
    → Passed company_id rows high seen
Passed-higher company_id rows low high seen h passed =
    All-map_of (λ id (q, there, below). (q, there, omega arith)) seen passed

-- The rows above `p`, by its parent.
abbrev IsAbove : ℕ → List Party → Party → Option Party → Type 0
IsAbove company_id rows p none = Unit {0}
IsAbove company_id rows p (some q) =
    (find_party company_id q.id rows ≡ some q)
    × (q.company_id ≡ company_id)
    × (rank p.kind < rank q.kind)

parent-IsAbove :
    (company_id : ℕ) (rows : List Party) (p : Party)
    → IsPlaced company_id rows p.kind p.parent_id
    → IsAbove company_id rows p (parent_row company_id p.parent_id rows)
parent-IsAbove company_id rows p (inl (top, kind)) = rw top tt
parent-IsAbove company_id rows p (inr (q, found, fits)) =
    rw found (itself q p.parent_id found, owner q p.parent_id found, parent-rank p.kind q.kind fits)
  where
    itself :
        (q : Party) (o : Option ℕ)
        → parent_row company_id o rows ≡ some q
        → find_party company_id q.id rows ≡ some q
    itself q none h = cc
    itself q (some id) h =
        let (m, own, same) = found-Member company_id id rows h in
        ap (λ i. find_party company_id i rows) same ∙ h

    owner :
        (q : Party) (o : Option ℕ)
        → parent_row company_id o rows ≡ some q
        → q.company_id ≡ company_id
    owner q none h = cc
    owner q (some id) h = (found-Member company_id id rows h).1

Climbs-higher :
    (company_id : ℕ) (rows : List Party) (low : ℕ) (q : Party) (qs : List Party)
    → low < rank q.kind
    → Climbs company_id rows (some q) qs
    → All (λ (r : Party). low < rank r.kind) qs
Climbs-higher company_id rows low q [] h way = absurd way
Climbs-higher company_id rows low q (r ∷ qs) h (same, higher, rest) =
    (rw same h, All-map_of (λ x e. omega arith) qs higher)

rank-le : (k : Level) → rank k ≤ 2
rank-le k = ground arith

ancestors-none :
    (fuel company_id : ℕ) (rows : List Party) (seen : List ℕ)
    → ancestors fuel company_id rows seen none ≡ []
unfolding ancestors
ancestors-none zero company_id rows seen = refl
ancestors-none (suc fuel) company_id rows seen = refl

ancestors-Climbs :
    (fuel company_id : ℕ) (rows : List Party) (seen : List ℕ) (p : Party)
    → IsTree rows
    → find_party company_id p.id rows ≡ some p
    → p.company_id ≡ company_id
    → Passed company_id rows (rank p.kind) seen
    → 3 ≤ fuel + rank p.kind
    → Climbs company_id rows (some p) (ancestors fuel company_id rows seen (some p))
unfolding ancestors
ancestors-Climbs zero company_id rows seen p tree found own passed enough =
    let low = rank-le p.kind in absurd (omega arith)
ancestors-Climbs (suc fuel) company_id rows seen p tree found own passed enough =
    let new = not_seen company_id rows p seen found passed in
    let placed : IsPlaced company_id rows p.kind p.parent_id =
      rw (← own) (tree p (found-Member company_id p.id rows found).0) in
    let above = parent-IsAbove company_id rows p placed in
    rw new (
      way (λ q f o ps e. ancestors-Climbs fuel company_id rows (p.id ∷ seen) q tree f o ps e)
        (parent_row company_id p.parent_id rows) refl above)
  where
    way :
        ((q : Party)
          → find_party company_id q.id rows ≡ some q
          → q.company_id ≡ company_id
          → Passed company_id rows (rank q.kind) (p.id ∷ seen)
          → 3 ≤ fuel + rank q.kind
          → Climbs company_id rows (some q) (ancestors fuel company_id rows (p.id ∷ seen) (some q)))
        → (o : Option Party) → o ≡ parent_row company_id p.parent_id rows
        → IsAbove company_id rows p o
        → Climbs company_id rows (some p) (
            p
            ∷ ancestors fuel company_id rows (p.id ∷ seen) (parent_row company_id p.parent_id rows))
    way further none same above =
        rw (← same, ancestors-none fuel company_id rows (p.id ∷ seen)) (refl, tt, tt)
    way further (some q) same (found_above, own_above, higher) =
        let rest =
          further q found_above own_above
            (
              (p, found, higher),
              Passed-higher company_id rows (rank p.kind) (rank q.kind) seen higher passed,
            )
            (omega arith) in
        rw (← same) (
          refl,
          Climbs-higher company_id rows (rank p.kind) q
              (ancestors fuel company_id rows (p.id ∷ seen) (some q)) higher rest,
          rest,
        )

Climbs-length :
    (company_id : ℕ) (rows : List Party) (low : ℕ) (o : Option Party) (qs : List Party)
    → low ≤ 3
    → All (λ (r : Party). low ≤ rank r.kind) qs
    → Climbs company_id rows o qs
    → length qs + low ≤ 3
Climbs-length company_id rows low none [] h higher way = omega arith
Climbs-length company_id rows low none (q ∷ qs) h higher way = absurd way
Climbs-length company_id rows low (some p) [] h higher way = absurd way
Climbs-length company_id rows low (some p) (q ∷ qs) h (first, others) (same, higher, rest) =
    let top = rank-le p.kind in
    let few =
      Climbs-length company_id rows (suc (rank p.kind)) (parent_row company_id p.parent_id rows) qs
        (omega arith) higher rest in
    let first' : low ≤ rank p.kind = rw same at first in omega (arith, few, first')

elsewhere :
    (book : PartyBook) (now : ℕ) (kind : Level) (qs : List Party)
    → All (λ (r : Party). rank kind < rank r.kind) qs
    → IsElsewhere kind (map (level_of book now) qs)
unfolding level_of
elsewhere book now kind [] h = tt
elsewhere book now kind (q ∷ qs) (h, hs) = (ground arith, elsewhere book now kind qs hs)

Climbs-IsDistinct :
    (book : PartyBook) (now company_id : ℕ) (o : Option Party) (qs : List Party)
    → Climbs company_id book.parties o qs
    → IsDistinct (map (level_of book now) qs)
unfolding level_of
Climbs-IsDistinct book now company_id none [] way = tt
Climbs-IsDistinct book now company_id none (q ∷ qs) way = absurd way
Climbs-IsDistinct book now company_id (some p) [] way = absurd way
Climbs-IsDistinct book now company_id (some p) (q ∷ qs) (same, higher, rest) = (
  rw (sym same) at (elsewhere book now p.kind qs higher),
  Climbs-IsDistinct book now company_id (parent_row company_id p.parent_id book.parties) qs rest,
)

from_zero : (qs : List Party) → All (λ (r : Party). 0 ≤ rank r.kind) qs
from_zero [] = tt
from_zero (q ∷ qs) = (omega arith, from_zero qs)

-- In a tree, the chain of a stored party is the party and everything above it, up to the top: it is
-- never cut short by its bound, has at most three parties, and no two of them are of one level.
pub build_chain-Climbs :
    (book : PartyBook) (now : ℕ) (p : Party)
    → IsTree book.parties
    → find_party p.company_id p.id book.parties ≡ some p
    → Climbs p.company_id book.parties (some p) (chain_of book p)
      × (length (chain_of book p) ≤ 3)
      × IsDistinct (build_chain book now p)
unfolding chain_of build_chain
build_chain-Climbs book now p tree found =
    let way = ancestors-Climbs 4 p.company_id book.parties [] p tree found refl tt (omega arith) in
    let few =
      Climbs-length p.company_id book.parties 0 (some p) _ (omega arith) (from_zero _) way in
    (way, omega (arith, few), Climbs-IsDistinct book now p.company_id (some p) _ way)
