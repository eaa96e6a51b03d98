-- ===== src/Payload/Depth.antt =====
-- app/services/event_processor.py: how deep the stored copy of a payload is.
use devflowfix.Base.{ℕ, zero, suc, ◌+◌, ◌-◌, ◌≤◌, List, [], ◌∷◌, String, leb, if◌then◌else◌, arith}
use devflowfix.Payload.{
  Node, Json, Fields, Items, fields_of, items_of, copy, sanitize, sanitize_payload,
}

abbrev pub larger : ℕ → ℕ → ℕ
larger m n = if leb m n then n else m

-- Levels of objects and arrays within one another.
unfoldable mutual
  pub depth {ℓ} : {N : Type ℓ} → Json N → ℕ
  depth Json.null = 0
  depth (Json.text s) = 0
  depth (Json.number n) = 0
  depth (Json.boolean b) = 0
  depth (Json.object fs) = 1 + depth_fields fs
  depth (Json.array xs) = 1 + depth_items xs

  pub depth_fields {ℓ} : {N : Type ℓ} → Fields N → ℕ
  depth_fields Fields.no_field = 0
  depth_fields (Fields.field key j fs) = larger (depth j) (depth_fields fs)

  pub depth_items {ℓ} : {N : Type ℓ} → Items N → ℕ
  depth_items Items.no_item = 0
  depth_items (Items.item j xs) = larger (depth j) (depth_items xs)

module _ {ℓ} {N : Type ℓ} where
  fields_of-le :
      (f : ℕ → Json N) (n : ℕ) (rs : List (String × ℕ))
      → ((r : ℕ) → depth (f r) ≤ n)
      → depth_fields (fields_of f rs) ≤ n
  unfolding depth depth_fields depth_items
  fields_of-le f n [] h = omega arith
  fields_of-le f n ((key, r) ∷ rs) h = ground (arith, h r, fields_of-le f n rs h)

  items_of-le :
      (f : ℕ → Json N) (n : ℕ) (rs : List ℕ)
      → ((r : ℕ) → depth (f r) ≤ n)
      → depth_items (items_of f rs) ≤ n
  unfolding depth depth_fields depth_items
  items_of-le f n [] h = omega arith
  items_of-le f n (r ∷ rs) h = ground (arith, h r, items_of-le f n rs h)

  copy-le :
      (f : ℕ → Json N) (n : ℕ) (x : Node N) → ((r : ℕ) → depth (f r) ≤ n) → depth (copy f x) ≤ suc n
  unfolding depth depth_fields depth_items
  copy-le f n Node.null h = omega arith
  copy-le f n (Node.text s) h = omega arith
  copy-le f n (Node.number m) h = omega arith
  copy-le f n (Node.boolean b) h = omega arith
  copy-le f n (Node.object rs) h = omega (arith, fields_of-le f n rs h)
  copy-le f n (Node.array rs) h = omega (arith, items_of-le f n rs h)
  copy-le f n (Node.other o) h = omega arith

  sanitize-le : (heap : ℕ → Node N) (levels r : ℕ) → depth (sanitize heap levels r) ≤ levels
  unfolding sanitize depth depth_fields depth_items
  sanitize-le heap zero r = omega arith
  sanitize-le heap (suc levels) r =
      copy-le (sanitize heap levels) levels (heap r) (sanitize-le heap levels)

  -- Every payload has a stored copy, also one that holds itself, and objects and arrays lie within one
  -- another in it at most one level more than `max_depth`, less the depth at which the copy starts.
  pub sanitize_payload-depth :
      (heap : ℕ → Node N) (r start max_depth : ℕ)
      → depth (sanitize_payload heap r start max_depth) ≤ suc max_depth - start
  unfolding sanitize_payload
  sanitize_payload-depth heap r start max_depth = sanitize-le heap (suc max_depth - start) r
