-- ===== src/Cache/Tests.antt =====
-- Concrete caches for app/adapters/ai/nvidia/cache.py.
use devflowfix.Base.{
  ℕ, ◌≡◌, refl, false, ◌&&◌, ltb, Option, String, none, some, List, [], ◌∷◌, lookup, insert, arith,
}
use devflowfix.Cache.{Entry, MemoryCache, new, get, set, evict, expiry, has_expired}
use devflowfix.Cache.Bounds.{Call, getting, setting, make, run, IsBounded, ends_in_time, run-new}
use devflowfix.Cache.Reads.{latest, get-latest}

abbrev calls : List (Call ℕ)
calls = setting 0 "a" 1 (some 10) ∷ setting 1 "b" 2 none ∷ getting 2 "a" ∷ setting 3 "c" 3 none ∷ []

abbrev two_left : MemoryCache ℕ
two_left = record {
  cache =
      ("b", record { embedding = 2; expires_at = none })
      ∷ ("c", record { embedding = 3; expires_at = none })
      ∷ [];
  max_size = 2;
}

run-new_example :
    IsBounded 2 (run calls (new 2))
    × ((now : ℕ) (key : String) (e : ℕ) (ttl : Option ℕ)
        → (set now key e ttl (run calls (new 2))).1 ≡ (ltb 0 2 && ends_in_time now ttl))
run-new_example = run-new 2 calls

-- A set that raises evicts all the same.
late_set : (set 5 "d" 4 (some 1000000000000) two_left).1 ≡ false
unfolding set evict expiry
late_set = refl

calls_run : run calls (new 2) ≡ two_left
unfolding run make new get set evict expiry lookup insert
calls_run = refl

b_hit : (get 5 "b" (run calls (new 2))).1 ≡ some 2
unfolding run make new get set evict expiry lookup insert
b_hit = refl

get-latest_example :
    (v : Entry ℕ) × (latest calls "b" none ≡ some v)
    × (v.embedding ≡ 2)
    × (has_expired 5 v.expires_at ≡ false)
get-latest_example = get-latest 2 calls 5 "b" 2 (omega arith) b_hit
