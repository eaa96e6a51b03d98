-- ===== src/Payload/Copies.antt =====
-- app/services/event_processor.py: which payloads are stored as they are.
use devflowfix.Base.{
  ℕ, zero, suc, ◌+◌, ◌-◌, ◌≤◌, ◌≡◌, refl, ap, ◌∙◌, Bool, Option, List, [], ◌∷◌, String, arith,
}
use devflowfix.Payload.{
  Node, Json, Fields, Items, fields_of, items_of, or_unserialized, copy, sanitize, sanitize_payload,
}
use devflowfix.Payload.Depth.{depth, depth_fields, depth_items}

-- What a payload says, written out as a tree: an object that holds itself says none.
mutual
  pub data Says {ℓ} {N : Type ℓ} (heap : ℕ → Node N) : Node N → Json N → Type ℓ where
    says_null : Says heap Node.null Json.null
    says_text : (s : String) → Says heap (Node.text s) (Json.text s)
    says_number : (n : N) → Says heap (Node.number n) (Json.number n)
    says_boolean : (b : Bool) → Says heap (Node.boolean b) (Json.boolean b)
    says_object :
        (rs : List (String × ℕ)) (fs : Fields N)
        → SaysFields heap rs fs
        → Says heap (Node.object rs) (Json.object fs)
    says_array :
        (rs : List ℕ) (xs : Items N)
        → SaysItems heap rs xs
        → Says heap (Node.array rs) (Json.array xs)
    says_other : (o : Option String) → Says heap (Node.other o) (Json.text (or_unserialized o))

  pub data SaysFields {ℓ} {N : Type ℓ} (heap : ℕ → Node N)
      : List (String × ℕ) → Fields N → Type ℓ where
    says_no_field : SaysFields heap [] Fields.no_field
    says_field :
        (key : String) (r : ℕ) (j : Json N) (rs : List (String × ℕ)) (fs : Fields N)
        → Says heap (heap r) j
        → SaysFields heap rs fs
        → SaysFields heap ((key, r) ∷ rs) (Fields.field key j fs)

  pub data SaysItems {ℓ} {N : Type ℓ} (heap : ℕ → Node N) : List ℕ → Items N → Type ℓ where
    says_no_item : SaysItems heap [] Items.no_item
    says_item :
        (r : ℕ) (j : Json N) (rs : List ℕ) (xs : Items N)
        → Says heap (heap r) j
        → SaysItems heap rs xs
        → SaysItems heap (r ∷ rs) (Items.item j xs)

module _ {ℓ} {N : Type ℓ} (heap : ℕ → Node N) where
  mutual
    unfolding depth depth_fields depth_items sanitize

    copy-says :
        (levels : ℕ) (x : Node N) (j : Json N)
        → Says heap x j
        → depth j ≤ levels
        → copy (sanitize heap levels) x ≡ j
    copy-says levels _ _ says_null h = refl
    copy-says levels _ _ (says_text s) h = refl
    copy-says levels _ _ (says_number n) h = refl
    copy-says levels _ _ (says_boolean b) h = refl
    copy-says levels _ _ (says_object rs fs w) h = ap Json.object (fields_of-says levels rs fs w h)
    copy-says levels _ _ (says_array rs xs w) h = ap Json.array (items_of-says levels rs xs w h)
    copy-says levels _ _ (says_other o) h = refl

    fields_of-says :
        (levels : ℕ) (rs : List (String × ℕ)) (fs : Fields N)
        → SaysFields heap rs fs
        → 1 + depth_fields fs ≤ levels
        → fields_of (sanitize heap levels) rs ≡ fs
    fields_of-says levels _ _ says_no_field h = refl
    fields_of-says zero _ _ (says_field key r j rs fs w ws) h = absurd (omega arith)
    fields_of-says (suc levels) _ _ (says_field key r j rs fs w ws) h =
        let first = copy-says levels (heap r) j w (ground (arith, h)) in
        let others = fields_of-says (suc levels) rs fs ws (ground (arith, h)) in
        ap (λ z. Fields.field key z (fields_of (sanitize heap (suc levels)) rs)) first
        ∙ ap (Fields.field key j) others

    items_of-says :
        (levels : ℕ) (rs : List ℕ) (xs : Items N)
        → SaysItems heap rs xs
        → 1 + depth_items xs ≤ levels
        → items_of (sanitize heap levels) rs ≡ xs
    items_of-says levels _ _ says_no_item h = refl
    items_of-says zero _ _ (says_item r j rs xs w ws) h = absurd (omega arith)
    items_of-says (suc levels) _ _ (says_item r j rs xs w ws) h =
        let first = copy-says levels (heap r) j w (ground (arith, h)) in
        let others = items_of-says (suc levels) rs xs ws (ground (arith, h)) in
        ap (λ z. Items.item z (items_of (sanitize heap (suc levels)) rs)) first
        ∙ ap (Items.item j) others

  -- A payload that says a tree, with at most `max_depth` objects and arrays within one another, is
  -- stored as that tree: nothing of it is cut, and only objects of other types become their texts.
  sanitize_payload-copies :
      (r max_depth : ℕ) (j : Json N)
      → Says heap (heap r) j
      → depth j ≤ max_depth
      → sanitize_payload heap r 0 max_depth ≡ j
  unfolding sanitize_payload sanitize
  sanitize_payload-copies r max_depth j w h =
      let all_levels : suc max_depth - 0 ≡ suc max_depth = omega arith in
      ap (λ n. sanitize heap n r) all_levels ∙ copy-says max_depth (heap r) j w h
