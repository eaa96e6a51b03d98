-- ===== src/Limits/Windows.antt =====
-- The history of the fixes that were started, kept whole: the reference against which the pruned
-- lists of app/domain/validators/blast_radius.py are measured.
use devflowfix.Base.{
  ℕ, ◌+◌, ◌≤◌, ◌≡◌, ◌&&◌, List, [], ◌∷◌, ◌++◌, String, Dict, insert, lookup-insert, str_eq, keep,
  length-keep-append, leb, if◌then◌else◌, arith,
}
use devflowfix.Limits.{younger, recent, times_of}

pub record Start : Type 0 where
  pub service : String
  pub at : ℕ

-- Starts of one service, and of all, later than `age` before a time.
unfoldable pub since_of : ℕ → ℕ → String → List Start → ℕ
since_of age now service [] = 0
since_of age now service (x ∷ log) =
    since_of age now service log
    + (if str_eq x.service service && younger age now x.at then 1 else 0)

unfoldable pub since_all : ℕ → ℕ → List Start → ℕ
since_all age now [] = 0
since_all age now (x ∷ log) = since_all age now log + (if younger age now x.at then 1 else 0)

-- Starts of one service, and of all, in the span of length `age` that ends at a time.
unfoldable pub window_of : ℕ → ℕ → String → List Start → ℕ
window_of age now service [] = 0
window_of age now service (x ∷ log) =
    window_of age now service log
    + (if str_eq x.service service && (younger age now x.at && leb x.at now) then 1 else 0)

unfoldable pub window_all : ℕ → ℕ → List Start → ℕ
window_all age now [] = 0
window_all age now (x ∷ log) =
    window_all age now log + (if younger age now x.at && leb x.at now then 1 else 0)

pub window_of-le-since_of :
    (age now later : ℕ) (service : String) (log : List Start)
    → now ≤ later
    → window_of age later service log ≤ since_of age now service log
unfolding window_of since_of
window_of-le-since_of age now later service [] h = omega arith
window_of-le-since_of age now later service (x ∷ log) h =
    ground (arith, window_of-le-since_of age now later service log h)

pub window_all-le-since_all :
    (age now later : ℕ) (log : List Start)
    → now ≤ later
    → window_all age later log ≤ since_all age now log
unfolding window_all since_all
window_all-le-since_all age now later [] h = omega arith
window_all-le-since_all age now later (x ∷ log) h =
    ground (arith, window_all-le-since_all age now later log h)

pub times_of-insert :
    (k j : String) (ts : List ℕ) (d : Dict (List ℕ))
    → times_of j (insert k ts d) ≡ (if str_eq k j then ts else times_of j d)
times_of-insert k j ts d = ground (arith, lookup-insert k j ts d)

pub recent-append :
    (age now t : ℕ) (ts : List ℕ)
    → recent age now (ts ++ t ∷ []) ≡ recent age now ts + (if younger age now t then 1 else 0)
unfolding recent keep
recent-append age now t ts = ground (arith, length-keep-append (younger age now) ts (t ∷ []))
