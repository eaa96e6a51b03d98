-- ===== src/RateLimit/Colons.antt =====
-- app/middleware.py: what an address with a colon does to the counts of all clients.
use devflowfix.Base.{
  is_some, ℕ, ◌+◌, ◌≡◌, ◌⊎◌, inl, inr, Bool, true, false, not, ◌||◌, none, List, [], ◌∷◌, String,
  Dict, lookup, insert, any, str_eq, eq_iff, Bool-cases, ap, arith,
}
use devflowfix.RateLimit.{
  Limiter, minute_bucket, or_zero, key_of, bucket_of, is_rate_limited, drop_old, record_request,
  dispatch, limited, raised,
}

-- Whether a key stands in the dictionary whose minute cannot be read.
unfoldable pub is_poisoned : Dict ℕ → Bool
is_poisoned [] = false
is_poisoned ((k, n) ∷ d) = not (is_some (bucket_of k)) || is_poisoned d

drop_old-poisoned : (bucket : ℕ) (d : Dict ℕ) → is_poisoned d ≡ true → drop_old bucket d ≡ none
unfolding drop_old is_poisoned
drop_old-poisoned bucket [] p = cc
drop_old-poisoned bucket ((k, n) ∷ d) p = ground (arith, drop_old-poisoned bucket d)

insert-poisoned :
    (k : String) (n : ℕ) (d : Dict ℕ) → is_poisoned d ≡ true → is_poisoned (insert k n d) ≡ true
unfolding insert is_poisoned
insert-poisoned k n [] p = cc
insert-poisoned k n ((j, m) ∷ d) p = elim (Bool-cases (str_eq j k)) [
  | inl t ↦ let same = ap (λ z. is_some (bucket_of z)) ((eq_iff j k).0 t) in ground (arith, t, same)
  | inr f ↦ ground (arith, f, insert-poisoned k n d)
]

insert-unreadable :
    (k : String) (n : ℕ) (d : Dict ℕ) → bucket_of k ≡ none → is_poisoned (insert k n d) ≡ true
unfolding insert is_poisoned
insert-unreadable k n [] e = ground (arith, e)
insert-unreadable k n ((j, m) ∷ d) e = ground (arith, e, insert-unreadable k n d e)

record_request-poisoned :
    (now : ℕ) (client : String) (s : Limiter)
    → let key = key_of client (minute_bucket now) in
      is_poisoned (insert key (or_zero (lookup key s.request_counts) + 1) s.request_counts) ≡ true
      → (is_poisoned (record_request now client s).0.request_counts ≡ true)
        × ((record_request now client s).1 ≡ false)
unfolding record_request
record_request-poisoned now client s h =
    let key = key_of client (minute_bucket now) in
    let d = insert key (or_zero (lookup key s.request_counts) + 1) s.request_counts in
    ground (arith, h, drop_old-poisoned (minute_bucket now) d h)

-- A request, with its clock readings.
pub record Request : Type 0 where
  pub tested : ℕ
  pub counted : ℕ
  pub path : String
  pub client : String

unfoldable pub serve_all : List String → List Request → Limiter → Limiter
serve_all ps [] s = s
serve_all ps (r ∷ rs) s = serve_all ps rs (dispatch ps r.tested r.counted r.path r.client s).0

module _ (ps : List String) where
  dispatch-poisoned :
      (r : Request) (s : Limiter)
      → is_poisoned s.request_counts ≡ true
      → let d = dispatch ps r.tested r.counted r.path r.client s in
        (is_poisoned d.0.request_counts ≡ true)
        × (any (str_eq r.path) ps ≡ false → (d.1 ≡ limited) ⊎ (d.1 ≡ raised))
  unfolding dispatch
  dispatch-poisoned r s p =
      let key = key_of r.client (minute_bucket r.counted) in
      let n = or_zero (lookup key s.request_counts) + 1 in
      ground (
        arith,
        record_request-poisoned r.counted r.client s (insert-poisoned key n s.request_counts p),
      )

  serve_all-poisoned :
      (rs : List Request) (s : Limiter)
      → is_poisoned s.request_counts ≡ true
      → is_poisoned (serve_all ps rs s).request_counts ≡ true
  unfolding serve_all
  serve_all-poisoned [] s p = p
  serve_all-poisoned (r ∷ rs) s p = serve_all-poisoned rs _ (dispatch-poisoned r s p).0

  first-raises :
      (r : Request) (s : Limiter)
      → any (str_eq r.path) ps ≡ false
      → is_rate_limited r.tested r.client s ≡ false
      → is_poisoned (record_request r.counted r.client s).0.request_counts ≡ true
      → (record_request r.counted r.client s).1 ≡ false
      → let d = dispatch ps r.tested r.counted r.path r.client s in
        (d.1 ≡ raised) × (is_poisoned d.0.request_counts ≡ true)
  unfolding dispatch
  first-raises r s n f bad failed = ground arith

  -- One request is enough to end the service: where the second part of a client's address between
  -- colons is no number, as in an address of IP version 6 such as "fe80::1", its first request that is not limited
  -- is answered by an exception, and so is every request after it, of any client, at any time and
  -- after any requests in between, unless it is limited or its path is excluded.
  pub colon_breaks :
      (first : Request) (between : List Request) (r : Request) (s : Limiter)
      → bucket_of (key_of first.client (minute_bucket first.counted)) ≡ none
      → any (str_eq first.path) ps ≡ false
      → is_rate_limited first.tested first.client s ≡ false
      → any (str_eq r.path) ps ≡ false
      → let a = dispatch ps first.tested first.counted first.path first.client s in
        let t = serve_all ps between a.0 in
        let b = (dispatch ps r.tested r.counted r.path r.client t).1 in
        (a.1 ≡ raised) × (b ≡ limited ⊎ (b ≡ raised))
  colon_breaks first between r s e n f m =
      let key = key_of first.client (minute_bucket first.counted) in
      let count = or_zero (lookup key s.request_counts) + 1 in
      let (bad, failed) =
        record_request-poisoned first.counted first.client s
          (insert-unreadable key count s.request_counts e) in
      let (raises, spoiled) = first-raises first s n f bad failed in
      (raises, (dispatch-poisoned r _ (serve_all-poisoned between _ spoiled)).1 m)
