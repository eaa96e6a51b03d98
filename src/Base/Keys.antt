-- ===== src/Base/Keys.antt =====
-- Rows that are told apart by two texts.
use Prim.Native.Nat.{◌≤◌}
use Prim.Native.String.{String}
use mathlib.Core.Path.{◌≡◌, sym, ap, ◌∙◌}
use mathlib.Core.Logic.{inl, inr}
use mathlib.Core.Bool.{Bool, ◌&&◌}
use mathlib.Core.Option.{none}
use mathlib.Core.List.{List, [], ◌∷◌, ◌++◌}
use native.Mathlib.Omega.{arith}
use text.Mathlib.TextEquality.{eq_iff}
use devflowfix.Base.Tests.{Bool-cases}
use devflowfix.Base.Text.{str_eq}
use devflowfix.Base.Rows.{find, count, find-count-none, count-append-one}

module _ {ℓ} {A : Type ℓ} (first second : A → String) where
  abbrev pub has_keys : String → String → A → Bool
  has_keys u v x = str_eq (first x) u && str_eq (second x) v

  -- A row is added to rows that are distinct where none of them has its keys.
  pub count-has_keys-append :
      (xs : List A) (x : A) (u v : String)
      → find (has_keys (first x) (second x)) xs ≡ none
      → count (has_keys u v) xs ≤ 1
      → count (has_keys u v) (xs ++ x ∷ []) ≤ 1
  count-has_keys-append xs x u v e h =
      let none_yet = find-count-none (has_keys (first x) (second x)) xs e in
      let grown = count-append-one (has_keys u v) xs x in
      elim (Bool-cases (has_keys u v x)) [
        | inl t ↦
            let p : first x ≡ u = ground (arith, t, eq_iff (first x) u) in
            let q : second x ≡ v = ground (arith, t, eq_iff (second x) v) in
            let empty : count (has_keys u v) xs ≡ 0 =
              ap (λ z. count (has_keys z v) xs) (sym p)
              ∙ ap (λ z. count (has_keys (first x) z) xs) (sym q)
              ∙ none_yet in
            ground (arith, grown, empty, t)
        | inr t ↦ ground (arith, grown, t, h)
      ]
