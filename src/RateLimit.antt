-- ===== src/RateLimit.antt =====
-- app/middleware.py: the rate limit of requests, one count for each client and minute in a dictionary
-- whose keys are texts, and the address that stands for a client. Times are whole seconds.
pub mod Keys
pub mod Cleanup
pub mod Counts
pub mod Limit
pub mod Colons
pub mod Address
mod Tests
use Prim.Native.Char.{Char, code}
use devflowfix.Base.{
  ℕ, zero, suc, ◌+◌, ◌-◌, ◌*◌, ◌/◌, ◌%◌, Bool, true, false, ◌&&◌, Option, none, some, List, [], ◌∷◌,
  String, Dict, lookup, insert, join, str_eq, any, ltb, leb, ◌==◌, if◌then◌else◌,
}

-- str(n)
unfoldable pub digit : ℕ → Char
digit n =
    if n == 0
    then "0"
    else if n == 1
    then "1"
    else if n == 2
    then "2"
    else if n == 3
    then "3"
    else if n == 4
    then "4"
    else if n == 5
    then "5"
    else if n == 6
    then "6"
    else if n == 7
    then "7"
    else if n == 8
    then "8"
    else "9"

-- A number below its fuel has fewer digits than that.
unfoldable pub digits : ℕ → ℕ → String → String
digits zero n out = out
digits (suc fuel) n out =
    let longer = String.◌∷◌ (digit (n % 10)) out in
    let rest = digits fuel (n / 10) longer in if ltb n 10 then longer else rest

unfoldable pub decimal : ℕ → String
decimal n = digits (suc n) n String.[]

-- int(s), of texts without white space, signs and underscores; `none` is its ValueError
unfoldable pub scan : String → ℕ → Option ℕ
scan String.[] n = some n
scan (String.◌∷◌ c s) n =
    let rest = scan s (n * 10 + (code c - b'0')) in
    if leb b'0' (code c) && leb (code c) b'9' then rest else none

unfoldable pub int_of : String → Option ℕ
int_of String.[] = none
int_of (String.◌∷◌ c s) = scan (String.◌∷◌ c s) 0

-- The text before the first colon, and the text behind it, where there is one.
unfoldable pub until_colon : String → String
until_colon String.[] = String.[]
until_colon (String.◌∷◌ c s) =
    let rest = until_colon s in if code c == b':' then String.[] else String.◌∷◌ c rest

unfoldable pub after_colon : String → String
after_colon String.[] = String.[]
after_colon (String.◌∷◌ c s) = let rest = after_colon s in if code c == b':' then s else rest

-- f"{client_id}:{minute_bucket}"
unfoldable pub key_of : String → ℕ → String
key_of client bucket = join client (join ":" (decimal bucket))

-- int(k.split(":")[1])
unfoldable pub bucket_of : String → Option ℕ
bucket_of k = int_of (until_colon (after_colon k))

pub record Limiter : Type 0 where
  pub requests_per_minute : ℕ
  pub request_counts : Dict ℕ

abbrev pub minute_bucket : ℕ → ℕ
minute_bucket now = now / 60

abbrev pub or_zero : Option ℕ → ℕ
or_zero none = 0
or_zero (some n) = n

unfoldable pub is_rate_limited : ℕ → String → Limiter → Bool
is_rate_limited now client s =
    leb s.requests_per_minute
      (or_zero (lookup (key_of client (minute_bucket now)) s.request_counts))

-- The keys with a minute before the last one, or none where the minute of a key cannot be read.
abbrev pub drop_entry : ℕ → String → ℕ → Option ℕ → Option (Dict ℕ) → Option (Dict ℕ)
drop_entry bucket k n none rest = none
drop_entry bucket k n (some b) none = none
drop_entry bucket k n (some b) (some d) = some (if ltb (b + 1) bucket then d else (k, n) ∷ d)

unfoldable pub drop_old : ℕ → Dict ℕ → Option (Dict ℕ)
drop_old bucket [] = some []
drop_old bucket ((k, n) ∷ d) = drop_entry bucket k n (bucket_of k) (drop_old bucket d)

abbrev pub cleaned : Limiter → Option (Dict ℕ) → Limiter × Bool
cleaned s none = (s, false)
cleaned s (some d) = (record s { request_counts = d }, true)

-- `false` is the ValueError of the clean-up, behind the count.
unfoldable pub record_request : ℕ → String → Limiter → Limiter × Bool
record_request now client s =
    let bucket = minute_bucket now in
    let key = key_of client bucket in
    let counts = insert key (or_zero (lookup key s.request_counts) + 1) s.request_counts in
    cleaned (record s { request_counts = counts }) (drop_old bucket counts)

-- The answer: the next handler's, the status 429, or an exception.
pub data Answer : Type 0 where
  passed limited raised : Answer

-- The clock is read once for the test and once for the count.
unfoldable pub dispatch : List String → ℕ → ℕ → String → String → Limiter → Limiter × Answer
dispatch exclude_paths now now' path client s =
    if any (str_eq path) exclude_paths
    then (s, passed)
    else if is_rate_limited now client s
    then (s, limited)
    else (let (s', ok) = record_request now' client s in (s', if ok then passed else raised))
