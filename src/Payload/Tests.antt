-- ===== src/Payload/Tests.antt =====
-- Concrete payloads for app/services/event_processor.py.
use devflowfix.Base.{ℕ, zero, suc, ◌-◌, ◌≤◌, [], ◌∷◌, arith}
use devflowfix.Payload.{Node, Json, Items, sanitize_payload}
use devflowfix.Payload.Depth.{depth, depth_items, sanitize_payload-depth}
use devflowfix.Payload.Copies.{Says, says_number, says_array, says_no_item, says_item}

-- An event with a list; its "error" holds the event again.
abbrev looping : ℕ → Node ℕ
looping zero = Node.object (("runs", 1) ∷ ("event", 0) ∷ [])
looping (suc zero) = Node.array (2 ∷ [])
looping (suc (suc r)) = Node.number 7

sanitize_payload-depth_example : depth (sanitize_payload looping 0 0 10) ≤ suc 10 - 0
sanitize_payload-depth_example = sanitize_payload-depth looping 0 0 10

abbrev runs : Json ℕ
runs = Json.array (Items.item (Json.number 7) Items.no_item)

abbrev runs_said : Says looping (looping 1) runs
runs_said =
    says_array (2 ∷ []) (Items.item (Json.number 7) Items.no_item)
      (says_item 2 (Json.number 7) [] Items.no_item (says_number 7) says_no_item)

runs_shallow : depth runs ≤ 10
unfolding depth depth_items
runs_shallow = omega arith
