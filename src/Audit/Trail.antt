-- ===== src/Audit/Trail.antt =====
-- The writing of the audit trail (`Actor`, `diff`, `snapshot` and `record` of
-- apps/api/services/audit.py). The id and the time that the database gives an event have no
-- counterpart; the trail is the list of its events, oldest first.
use film_bill.Base.{
  ◌≡◌, refl, inl, inr, ℕ, Bool, not, ◌&&◌, Option, none, some, List, [], ◌∷◌, ◌++◌, arith,
  if◌then◌else◌, Bool-cases, text_eq, text_eq_iff, text_has_equality, contains, lookup, insert,
  lookup-insert, or_else, take,
}
use film_bill.Base.Text.{Text, lit, is_empty}
use film_bill.Tax.Json.{Json, null, json_equal}
use film_bill.Audit.{redact}

pub record Actor : Type 0 where
  pub user_id : Option ℕ
  pub company_id : Option ℕ
  pub ip : Option Text
  pub user_agent : Option Text

-- What a request says of its client.
pub record Client : Type 0 where
  pub host : Option Text
  pub user_agent : Option Text

-- `(s or None) and str(s)[:width]`
abbrev pub truncated : ℕ → Option Text → Option Text
truncated width none = none
truncated width (some s) = if is_empty s then none else some (take width s)

-- The columns hold 64 and 512 characters.
unfoldable pub actor_from : Client → Option ℕ → Option ℕ → Actor
actor_from client company_id user_id = record {
  user_id = user_id;
  company_id = company_id;
  ip = truncated 64 client.host;
  user_agent = truncated 512 client.user_agent;
}

-- `[old, new]`
pub record Change : Type 0 where
  pub old : Json
  pub new : Json

pub record AuditEvent : Type 0 where
  pub company_id : Option ℕ
  pub user_id : Option ℕ
  pub entity_type : Text
  pub entity_id : Option ℕ
  pub action : Text
  pub changes : List (Text × Change)
  pub reason : Option Text
  pub ip : Option Text
  pub user_agent : Option Text

abbrev pub Values : Type 0
Values = List (Text × Json)

-- `values.get(name)`
abbrev pub get : Text → Values → Json
get name values = or_else (lookup name values) null

abbrev pub change_of : Text → Values → Values → Change
change_of name before after = record {
  old = redact name (get name before);
  new = redact name (get name after);
}

abbrev pub has_changed : Text → Values → Values → Bool
has_changed name before after = not (json_equal (get name before) (get name after))

unfoldable pub diff_from : List Text → Values → Values → List (Text × Change) → List (Text × Change)
diff_from [] before after changed = changed
diff_from (name ∷ names) before after changed = diff_from names before after (
    if has_changed name before after
    then insert name (change_of name before after) changed
    else changed)

-- With `fields`, and with `None` read as no values.
unfoldable pub diff : Option Values → Option Values → List Text → List (Text × Change)
diff before after names = diff_from names (or_else before []) (or_else after []) []

-- An object by its attributes.
unfoldable pub snapshot : Values → List Text → Values
snapshot entity [] = []
snapshot entity (name ∷ names) = insert name (get name entity) (snapshot entity names)

-- What `record` reads of an entity: its table, its id and the company that it belongs to.
pub record AuditedEntity : Type 0 where
  pub entity_type : Text
  pub id : Option ℕ
  pub company_id : Option ℕ

abbrev pub first_of : Option ℕ → Option ℕ → Option ℕ
first_of none o = o
first_of (some a) o = some a

-- A company is the company, not a row in one.
unfoldable pub company_of : AuditedEntity → Option ℕ
company_of entity =
    first_of entity.company_id
      (if text_eq entity.entity_type (lit "companies") then entity.id else none)

unfoldable pub record_event :
    Actor
    → AuditedEntity
    → Text
    → Option Values
    → Option Values
    → List Text
    → List AuditEvent
    → List AuditEvent
record_event actor entity action before after names trail =
    trail
    ++ (record {
      company_id = first_of (company_of entity) actor.company_id;
      user_id = actor.user_id;
      entity_type = entity.entity_type;
      entity_id = entity.id;
      action = action;
      changes = diff before after names;
      reason = none;
      ip = actor.ip;
      user_agent = actor.user_agent;
    })
      ∷ []

-- What the difference holds for a name.
abbrev pub recorded : Bool → Text → Values → Values → Option Change
recorded listed name before after =
    if listed && has_changed name before after then some (change_of name before after) else none

abbrev first_change : Option Change → Option Change → Option Change
first_change none o = o
first_change (some c) o = some c

lookup-diff_from :
    (name : Text) (names : List Text) (before after : Values) (changed : List (Text × Change))
    → lookup name (diff_from names before after changed)
      ≡ first_change (recorded (contains names name) name before after) (lookup name changed)
unfolding diff_from
lookup-diff_from name [] before after changed = refl
lookup-diff_from name (n ∷ names) before after changed = elim (Bool-cases (text_eq name n)) [
  | inl e ↦
      let same : name ≡ n = (text_eq_iff name n).0 e in
      ground (
        arith,
        same,
        text_eq_iff name n,
        lookup-insert n name (change_of n before after) changed,
        lookup-diff_from name names before after changed,
        lookup-diff_from name names before after (insert n (change_of n before after) changed),
      )
  | inr e ↦ ground (
    arith,
    lookup-insert n name (change_of n before after) changed,
    lookup-diff_from name names before after changed,
    lookup-diff_from name names before after (insert n (change_of n before after) changed),
  )
]

-- The difference of two states has an entry for a field exactly if the field is asked for and its
-- values differ, and the entry is the two values, each redacted.
pub lookup-diff :
    (name : Text) (names : List Text) (before after : Option Values)
    → lookup name (diff before after names)
      ≡ recorded (contains names name) name (or_else before []) (or_else after [])
unfolding diff
lookup-diff name names before after =
    ground (arith, lookup-diff_from name names (or_else before []) (or_else after []) [])
