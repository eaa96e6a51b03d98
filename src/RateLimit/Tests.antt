-- ===== src/RateLimit/Tests.antt =====
-- Concrete requests for app/middleware.py.
use devflowfix.Base.{
  ◌≡◌, ◌⊎◌, refl, Bool, true, false, Option, none, some, [], ◌∷◌, String, lookup, join, any,
  if◌then◌else◌, str_eq, arith,
}
use devflowfix.RateLimit.{
  Limiter, key_of, bucket_of, digits, digit, decimal, int_of, scan, until_colon, after_colon,
  is_rate_limited, dispatch, limited, raised,
}
use devflowfix.RateLimit.Keys.{has_colon}
use devflowfix.RateLimit.Limit.{
  World, Reach, here, next, lets_through, fresh, IsLimited, Reach-IsLimited,
}
use devflowfix.RateLimit.Colons.{Request, serve_all, colon_breaks}
use devflowfix.RateLimit.Address.{Headers}

abbrev empty_counts : Limiter
empty_counts = record { requests_per_minute = 60; request_counts = [] }

abbrev one_request : World
one_request = record {
  now = 121;
  limiter = (dispatch ("/health" ∷ []) 119 121 "/api" "10.0.0.7" empty_counts).0;
  log = ("10.0.0.7", 2) ∷ [];
}

one_request_reached : Reach (fresh 100 60) one_request
unfolding has_colon fresh is_rate_limited lookup any
one_request_reached = next here (
    lets_through ("/health" ∷ []) 119 121 "/api" "10.0.0.7" (omega arith) (omega arith) refl refl
      refl)

Reach-IsLimited_example : IsLimited 60 one_request
Reach-IsLimited_example = Reach-IsLimited 60 100 one_request one_request_reached

abbrev from_v6 : Request
from_v6 = record { tested = 100; counted = 100; path = "/api"; client = "2001:db8::1" }

abbrev from_v4 : Request
from_v4 = record { tested = 900; counted = 900; path = "/api"; client = "10.0.0.7" }

unreadable : bucket_of (key_of "2001:db8::1" 1) ≡ none
unfolding bucket_of key_of decimal digits digit int_of scan until_colon after_colon join
unreadable = refl

colon_breaks_example :
    let a = dispatch ("/health" ∷ []) 100 100 "/api" "2001:db8::1" empty_counts in
    let t = serve_all ("/health" ∷ []) (from_v4 ∷ []) a.0 in
    let b = (dispatch ("/health" ∷ []) 900 900 "/api" "10.0.0.7" t).1 in
    (a.1 ≡ raised) × (b ≡ limited ⊎ (b ≡ raised))
unfolding any is_rate_limited lookup
colon_breaks_example =
    colon_breaks ("/health" ∷ []) from_v6 (from_v4 ∷ []) from_v4 empty_counts unreadable refl refl
      refl

abbrev known : String → Option Bool
known s =
    if str_eq s "127.0.0.1" then some true else if str_eq s "8.8.8.8" then some false else none

abbrev forwarded : Headers
forwarded = record { cf_connecting_ip = none; x_real_ip = some "8.8.8.8"; x_forwarded_for = none }
