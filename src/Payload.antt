-- ===== src/Payload.antt =====
-- app/services/event_processor.py: the copy of a payload that is stored with its incident. A payload
-- is a graph of Python objects, which may hold itself: `heap` gives each object by its reference.
pub mod Depth
pub mod Copies
mod Tests
use devflowfix.Base.{
  ℕ, zero, suc, ◌+◌, ◌-◌, Bool, Option, none, some, List, [], ◌∷◌, String, ltb, leb, if◌then◌else◌,
}

pub data Node {ℓ} (N : Type ℓ) : Type ℓ where
  null : Node N
  text : String → Node N
  number : N → Node N
  boolean : Bool → Node N
  -- a dict and a list or tuple, with the references of their values
  object : List (String × ℕ) → Node N
  array : List ℕ → Node N
  -- any other object, with its text where `str` does not raise
  other : Option String → Node N

-- What is stored: a finite tree. Lists of trees are types of their own.
mutual
  pub data Json {ℓ} (N : Type ℓ) : Type ℓ where
    null : Json N
    text : String → Json N
    number : N → Json N
    boolean : Bool → Json N
    object : Fields N → Json N
    array : Items N → Json N

  pub data Fields {ℓ} (N : Type ℓ) : Type ℓ where
    no_field : Fields N
    field : String → Json N → Fields N → Fields N

  pub data Items {ℓ} (N : Type ℓ) : Type ℓ where
    no_item : Items N
    item : Json N → Items N → Items N

abbrev pub or_unserialized : Option String → String
or_unserialized none = "[UNSERIALIZED_OBJECT]"
or_unserialized (some s) = s

module _ {ℓ} {N : Type ℓ} where
  abbrev pub fields_of : (ℕ → Json N) → List (String × ℕ) → Fields N
  fields_of f [] = Fields.no_field
  fields_of f ((key, r) ∷ rs) = Fields.field key (f r) (fields_of f rs)

  abbrev pub items_of : (ℕ → Json N) → List ℕ → Items N
  items_of f [] = Items.no_item
  items_of f (r ∷ rs) = Items.item (f r) (items_of f rs)

  -- One object, with the copies of what it holds.
  abbrev pub copy : (ℕ → Json N) → Node N → Json N
  copy f Node.null = Json.null
  copy f (Node.text s) = Json.text s
  copy f (Node.number n) = Json.number n
  copy f (Node.boolean b) = Json.boolean b
  copy f (Node.object rs) = Json.object (fields_of f rs)
  copy f (Node.array rs) = Json.array (items_of f rs)
  copy f (Node.other o) = Json.text (or_unserialized o)

  -- `_sanitize_payload` at a depth that leaves so many levels: max_depth + 1 - depth.
  unfoldable pub sanitize : (ℕ → Node N) → ℕ → ℕ → Json N
  sanitize heap zero r = Json.text "[MAX_DEPTH_EXCEEDED]"
  sanitize heap (suc levels) r = copy (sanitize heap levels) (heap r)

  -- With the arguments `depth` and `max_depth` of the code.
  unfoldable pub sanitize_payload : (ℕ → Node N) → ℕ → ℕ → ℕ → Json N
  sanitize_payload heap r depth max_depth = sanitize heap (suc max_depth - depth) r
