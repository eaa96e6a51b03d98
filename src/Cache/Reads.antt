-- ===== src/Cache/Reads.antt =====
-- app/adapters/ai/nvidia/cache.py: what `get` returns, against a cache that forgets nothing.
use devflowfix.Base.{
  ℕ, ◌<◌, ◌≡◌, refl, false, Option, none, some, List, [], ◌∷◌, String, Dict, lookup, insert,
  lookup-insert, lookup-erase, str_eq, eq_iff, if◌then◌else◌, arith,
}
use devflowfix.Cache.{Entry, MemoryCache, new, read, get, store, set, clear, expiry, has_expired}
use devflowfix.Cache.Bounds.{
  Call, getting, setting, clearing, IsBounded, make, run, set-Stores, set-IsBounded, get-IsBounded,
  clear-IsBounded, new-IsBounded,
}

module _ {ℓ} {E : Type ℓ} where
  -- A `set` whose expiry raises sets nothing.
  abbrev pub renewed : E → Option (Option ℕ) → Option (Entry E) → Option (Entry E)
  renewed e none o = o
  renewed e (some t) o = some (record { embedding = e; expires_at = t })

  -- The last entry that was set for a key since the cache was last cleared.
  unfoldable pub latest : List (Call E) → String → Option (Entry E) → Option (Entry E)
  latest [] k o = o
  latest (getting now key ∷ xs) k o = latest xs k o
  latest (setting now key e ttl ∷ xs) k o =
      latest xs k (if str_eq key k then renewed e (expiry now ttl) o else o)
  latest (clearing ∷ xs) k o = latest xs k none

  -- All that is in the cache is what was last set.
  abbrev pub Follows : (String → Option (Entry E)) → MemoryCache E → Type ℓ
  Follows f c = (k : String) (v : Entry E) → lookup k c.cache ≡ some v → f k ≡ some v

  get-Follows :
      (f : String → Option (Entry E)) (now : ℕ) (key : String) (c : MemoryCache E)
      → Follows f c
      → Follows f (get now key c).0
  unfolding get
  get-Follows f now key c h k v e = ground (arith, e, lookup-erase key k c.cache, h k v)

  store-there :
      (k key : String) (v w : Entry E) (d : Dict (Entry E)) (f : Option (Entry E))
      → (lookup k d ≡ some v → f ≡ some v)
      → lookup k (insert key w d) ≡ some v
      → (if str_eq key k then some w else f) ≡ some v
  store-there k key v w d f h e = ground (arith, e, lookup-insert key k w d, h)

  store-Follows :
      (f : String → Option (Entry E)) (key : String) (x : E) (o : Option (Option ℕ))
      (c : MemoryCache E)
      → Follows f c
      → Follows (λ k. if str_eq key k then renewed x o (f k) else f k) (store key x o c).0
  store-Follows f key x none c h k v l = ground (arith, h k v l)
  store-Follows f key x (some t) c h k v l =
      store-there k key v (record { embedding = x; expires_at = t }) c.cache (f k) (h k v) l

  clear-Follows : (c : MemoryCache E) → Follows (λ k. none) (clear c)
  unfolding clear lookup
  clear-Follows c k v l = cc

  new-Follows : (n : ℕ) → Follows (λ k. none) (new n)
  unfolding new lookup
  new-Follows n k v l = cc

  read-hit :
      (now : ℕ) (key : String) (c : MemoryCache E) (o : Option (Entry E)) (x : E)
      → (read now key c o).1 ≡ some x
      → (v : Entry E) × (o ≡ some v) × (v.embedding ≡ x) × (has_expired now v.expires_at ≡ false)
  read-hit now key c none x h = cc
  read-hit now key c (some v) x h = (v, refl, ground arith, ground arith)

  set-Follows :
      (n : ℕ) (f : String → Option (Entry E)) (now : ℕ) (key : String) (x : E) (ttl : Option ℕ)
      (c : MemoryCache E)
      → 0 < n
      → IsBounded n c
      → Follows f c
      → Follows
          (λ k. if str_eq key k then renewed x (expiry now ttl) (f k) else f k)
          (set now key x ttl c).0
  set-Follows n f now key x ttl c p b h =
      let s = set-Stores n now key x ttl c p b in
      rw s.stored (
        store-Follows f key x (expiry now ttl) (record c { cache = s.kept })
          (λ k v q. h k v (s.was_there k v q)))

  run-Follows :
      (n : ℕ) (xs : List (Call E)) (f : String → Option (Entry E)) (c : MemoryCache E)
      → 0 < n
      → IsBounded n c
      → Follows f c
      → Follows (λ k. latest xs k (f k)) (run xs c)
  unfolding run latest make
  run-Follows n [] f c p b h = h
  run-Follows n (getting now key ∷ xs) f c p b h =
      run-Follows n xs f (get now key c).0 p (get-IsBounded n now key c b)
        (get-Follows f now key c h)
  run-Follows n (setting now key x ttl ∷ xs) f c p b h =
      run-Follows n xs (λ k. if str_eq key k then renewed x (expiry now ttl) (f k) else f k)
        (set now key x ttl c).0 p (set-IsBounded n now key x ttl c b)
        (set-Follows n f now key x ttl c p b h)
  run-Follows n (clearing ∷ xs) f c p b h =
      run-Follows n xs (λ k. none) (clear c) p (clear-IsBounded n c b) (clear-Follows c)

  -- A hit is never wrong and never late: after any row of calls from a new cache with a positive
  -- limit, those that raised among them, what `get` returns for a key is what was last set for it,
  -- without raising, since the cache was last cleared, and that has not expired.
  pub get-latest :
      (n : ℕ) (xs : List (Call E)) (now : ℕ) (key : String) (x : E)
      → 0 < n
      → (get now key (run xs (new n))).1 ≡ some x
      → (v : Entry E) × (latest xs key none ≡ some v)
        × (v.embedding ≡ x)
        × (has_expired now v.expires_at ≡ false)
  unfolding get
  get-latest n xs now key x p g =
      let c = run xs (new n) in
      let (v, there, same, fresh) = read-hit now key c (lookup key c.cache) x g in
      let follows = run-Follows n xs (λ k. none) (new n) p (new-IsBounded n) (new-Follows n) in
      (v, follows key v there, same, fresh)

  -- What was set is read back until it expires: behind a `set` on a cache within its positive limit,
  -- full or not, that does not raise, `get` returns the embedding at any time not past the expiry.
  get-set :
      (n now now' : ℕ) (key : String) (x : E) (ttl t : Option ℕ) (c : MemoryCache E)
      → 0 < n
      → IsBounded n c
      → expiry now ttl ≡ some t
      → has_expired now' t ≡ false
      → (get now' key (set now key x ttl c).0).1 ≡ some x
  unfolding get
  get-set n now now' key x ttl t c p b e h =
      let s = set-Stores n now key x ttl c p b in
      let w : Entry E = record { embedding = x; expires_at = t } in
      rw (s.stored, e) (ground (arith, h, lookup-insert key key w s.kept, eq_iff key key))
