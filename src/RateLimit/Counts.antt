-- ===== src/RateLimit/Counts.antt =====
-- app/middleware.py: what one request does to the counts, for clients whose address has no colon.
use devflowfix.Base.{
  ℕ, ◌+◌, ◌≤◌, ◌≡◌, ap, sym, ◌∙◌, Bool, true, false, ◌&&◌, List, String, Dict, lookup, insert,
  lookup-insert, keep, length, str_eq, eq_iff, ◌==◌, if◌then◌else◌, Bool-cases, inl, inr, arith,
}
use devflowfix.RateLimit.{Limiter, minute_bucket, or_zero, key_of, record_request}
use devflowfix.RateLimit.Keys.{has_colon, bucket_of-key_of}
use devflowfix.RateLimit.Cleanup.{AreReadable, insert-AreReadable, drop_old-Drops}

-- Whether a logged request is one of the client in the minute.
abbrev pub is_of : String → ℕ → String × ℕ → Bool
is_of client b (other, c) = str_eq other client && c == b

unfoldable pub times : String → ℕ → List (String × ℕ) → ℕ
times client b log = length (keep (is_of client b) log)

abbrev pub present : Bool → ℕ
present b = if b then 1 else 0

same_key :
    (x y : String) (b c : ℕ)
    → has_colon x ≡ false
    → has_colon y ≡ false
    → str_eq (key_of y c) (key_of x b) ≡ is_of x b (y, c)
same_key x y b c h g = elim (Bool-cases (str_eq (key_of y c) (key_of x b))) [
  | inl t ↦
      let (p, q) = (bucket_of-key_of x b h).1 y c g ((eq_iff _ _).0 t) in
      ground (arith, t, p, q, eq_iff y x)
  | inr f ↦ (elim (Bool-cases (is_of x b (y, c))) [
    | inl t ↦
        let p : y ≡ x = ground (arith, t, eq_iff y x) in
        let q : c ≡ b = ground (arith, t) in
        absurd (
          ground (
            arith,
            f,
            (eq_iff (key_of y c) (key_of x b)).1 (ap (λ z. key_of z c) p ∙ ap (key_of x) q),
          ))
    | inr n ↦ f ∙ sym n
  ])
]

-- One count, for a client whose address has no colon.
pub record Counts (now : ℕ) (client : String) (s : Limiter) : Type 0 where
  pub counted : Dict ℕ
  pub recorded : record_request now client s ≡ (record s { request_counts = counted }, true)
  pub readable : AreReadable counted
  pub exact :
      (x : String) (b : ℕ)
      → has_colon x ≡ false
      → minute_bucket now ≤ b + 1
      → or_zero (lookup (key_of x b) counted)
        ≡ or_zero (lookup (key_of x b) s.request_counts)
          + present (is_of x b (client, minute_bucket now))

bump :
    (key k : String) (d left : Dict ℕ)
    → lookup k left ≡ lookup k (insert key (or_zero (lookup key d) + 1) d)
    → or_zero (lookup k left) ≡ or_zero (lookup k d) + present (str_eq key k)
bump key k d left h =
    let i = lookup-insert key k (or_zero (lookup key d) + 1) d in
    elim (Bool-cases (str_eq key k)) [
      | inl t ↦
          let same = ap (λ z. or_zero (lookup z d)) ((eq_iff key k).0 t) in
          ground (arith, h, i, t, same)
      | inr f ↦ ground (arith, h, i, f)
    ]

pub record_request-Counts :
    (now : ℕ) (client : String) (s : Limiter)
    → has_colon client ≡ false
    → AreReadable s.request_counts
    → Counts now client s
unfolding record_request
record_request-Counts now client s h r =
    let bucket = minute_bucket now in
    let key = key_of client bucket in
    let n = or_zero (lookup key s.request_counts) + 1 in
    let back = (bucket_of-key_of client bucket h).0 in
    let d =
      drop_old-Drops bucket (insert key n s.request_counts)
        (insert-AreReadable key n s.request_counts (ground (arith, back)) r) in
    record {
      counted = d.left;
      recorded = ground (arith, d.dropped);
      readable = d.left_readable;
      exact = λ x b g p.
          let e = (bucket_of-key_of x b g).0 in
          let grown = bump key (key_of x b) s.request_counts d.left (d.same (key_of x b) b e p) in
          rw (← same_key x client b bucket g h) grown;
    }
