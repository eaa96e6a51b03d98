-- ===== src/RateLimit/Cleanup.antt =====
-- app/middleware.py: what the clean-up of old counts leaves.
use devflowfix.Base.{
  is_some, ℕ, ◌+◌, ◌≤◌, ◌<◌, ◌≡◌, refl, ap, true, false, some, [], ◌∷◌, String, Dict, lookup,
  insert, str_eq, eq_iff, ltb, Bool-cases, Option-cases, inl, inr, arith,
}
use devflowfix.RateLimit.{bucket_of, drop_old}

-- The minute of every key can be read.
abbrev pub AreReadable : Dict ℕ → Type 0
AreReadable [] = Unit
AreReadable ((k, n) ∷ d) = (is_some (bucket_of k) ≡ true) × AreReadable d

pub insert-AreReadable :
    (k : String) (n : ℕ) (d : Dict ℕ)
    → is_some (bucket_of k) ≡ true
    → AreReadable d
    → AreReadable (insert k n d)
unfolding insert
insert-AreReadable k n [] h r = (h, tt)
insert-AreReadable k n ((j, m) ∷ d) h (a, r) = ground (arith, insert-AreReadable k n d h r)

-- What the clean-up leaves: all that is not older than the last minute.
pub record Drops (bucket : ℕ) (d : Dict ℕ) : Type 0 where
  pub left : Dict ℕ
  pub dropped : drop_old bucket d ≡ some left
  pub left_readable : AreReadable left
  pub same :
      (k : String) (b : ℕ) → bucket_of k ≡ some b → bucket ≤ b + 1 → lookup k left ≡ lookup k d

differ :
    (bucket : ℕ) (k j : String) (b c : ℕ)
    → bucket_of k ≡ some b
    → bucket_of j ≡ some c
    → b + 1 < bucket
    → bucket ≤ c + 1
    → str_eq k j ≡ false
differ bucket k j b c e f p q = elim (Bool-cases (str_eq k j)) [
  | inl t ↦ let same = ap bucket_of ((eq_iff k j).0 t) in absurd (ground (arith, e, f, same))
  | inr t ↦ t
]

skip-old :
    (k j : String) (n : ℕ) (left d : Dict ℕ)
    → str_eq k j ≡ false
    → lookup j left ≡ lookup j d
    → lookup j left ≡ lookup j ((k, n) ∷ d)
unfolding lookup
skip-old k j n left d e h = ground (arith, e, h)

keep-young :
    (k j : String) (n : ℕ) (left d : Dict ℕ)
    → lookup j left ≡ lookup j d
    → lookup j ((k, n) ∷ left) ≡ lookup j ((k, n) ∷ d)
unfolding lookup
keep-young k j n left d h = ground (arith, h)

pub drop_old-Drops : (bucket : ℕ) (d : Dict ℕ) → AreReadable d → Drops bucket d
unfolding drop_old
drop_old-Drops bucket [] r = record {
  left = [];
  dropped = refl;
  left_readable = tt;
  same = λ k b e h. refl;
}
drop_old-Drops bucket ((k, n) ∷ d) (a, r) =
    let rest = drop_old-Drops bucket d r in
    elim (Option-cases (bucket_of k)) [
      | inl e ↦ absurd (ground (arith, e, a))
      | inr (b, e) ↦ (elim (Bool-cases (ltb (b + 1) bucket)) [
        | inl old ↦ record {
          left = rest.left;
          dropped = ground (arith, e, old, rest.dropped);
          left_readable = rest.left_readable;
          same = λ j c f h.
              skip-old k j n rest.left d (differ bucket k j b c e f (ground (arith, old)) h)
                (rest.same j c f h);
        }
        | inr young ↦ record {
          left = (k, n) ∷ rest.left;
          dropped = ground (arith, e, young, rest.dropped);
          left_readable = (a, rest.left_readable);
          same = λ j c f h. keep-young k j n rest.left d (rest.same j c f h);
        }
      ])
    ]
