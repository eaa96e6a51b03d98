-- ===== src/Cache/Bounds.antt =====
-- app/adapters/ai/nvidia/cache.py: the size of the cache over every row of calls.
use devflowfix.Base.{
  ℕ, zero, suc, ◌+◌, ◌*◌, ◌≤◌, ◌<◌, ◌≡◌, refl, ap, ◌∙◌, Bool, true, false, ◌&&◌, ◌||◌, ◌==◌, ltb,
  Option, none, some, List, [], ◌∷◌, String, Dict, lookup, insert, erase, IsUnique, insert-IsUnique,
  erase-IsUnique, length, leb, eq_iff, Bool-cases, inl, inr, arith,
}
use devflowfix.Cache.{
  Entry, MemoryCache, new, get, store, evict, set, clear, expiry, second, datetime_max,
}

pub data Call {ℓ} (E : Type ℓ) : Type ℓ where
  getting : ℕ → String → Call E
  setting : ℕ → String → E → Option ℕ → Call E
  clearing : Call E

pub record IsBounded {ℓ} {E : Type ℓ} (n : ℕ) (c : MemoryCache E) : Type ℓ where
  pub limit : c.max_size ≡ n
  pub size : length c.cache ≤ n
  pub unique : IsUnique c.cache

-- Whether the expiry of a ttl is a datetime.
abbrev pub ends_in_time : ℕ → Option ℕ → Bool
ends_in_time now none = true
ends_in_time now (some ttl) = ttl == 0 || leb (now + ttl * second) datetime_max

module _ {ℓ} {E : Type ℓ} where
  unfoldable pub make : Call E → MemoryCache E → MemoryCache E
  make (getting now key) c = (get now key c).0
  make (setting now key e ttl) c = (set now key e ttl c).0
  make clearing c = clear c

  -- A call that raises leaves the cache to the calls after it.
  unfoldable pub run : List (Call E) → MemoryCache E → MemoryCache E
  run [] c = c
  run (x ∷ xs) c = run xs (make x c)

  length-insert-le :
      (k : String) (v : Entry E) (d : Dict (Entry E)) → length (insert k v d) ≤ length d + 1
  unfolding insert
  length-insert-le k v [] = omega arith
  length-insert-le k v ((j, w) ∷ d) = ground (arith, length-insert-le k v d)

  length-erase-le : (k : String) (d : Dict (Entry E)) → length (erase k d) ≤ length d
  unfolding erase
  length-erase-le k [] = omega arith
  length-erase-le k ((j, w) ∷ d) = ground (arith, length-erase-le k d)

  pub get-IsBounded :
      (n now : ℕ) (key : String) (c : MemoryCache E) → IsBounded n c → IsBounded n (get now key c).0
  unfolding get
  get-IsBounded n now key c b =
      ground (arith, length-erase-le key c.cache, erase-IsUnique key c.cache b.unique)

  pub store-IsBounded :
      (n : ℕ) (key : String) (e : E) (o : Option (Option ℕ)) (c : MemoryCache E)
      → c.max_size ≡ n
      → length c.cache < n
      → IsUnique c.cache
      → IsBounded n (store key e o c).0
  store-IsBounded n key e none c h l u = record { limit = h; size = omega arith; unique = u }
  store-IsBounded n key e (some t) c h l u =
      let v : Entry E = record { embedding = e; expires_at = t } in
      record {
        limit = h;
        size = omega (arith, length-insert-le key v c.cache);
        unique = insert-IsUnique key v c.cache u;
      }

  -- How `set` works on a cache within a positive bound: it stores into entries that were there, less
  -- one where the cache was full.
  pub record Stores (n now : ℕ) (key : String) (e : E) (ttl : Option ℕ) (c : MemoryCache E)
      : Type ℓ where
    pub kept : Dict (Entry E)
    pub stored : set now key e ttl c ≡ store key e (expiry now ttl) (record c { cache = kept })
    pub room : length kept < n
    pub kept_unique : IsUnique kept
    pub was_there : (k : String) (v : Entry E) → lookup k kept ≡ some v → lookup k c.cache ≡ some v

  tail-there :
      (j k : String) (w v : Entry E) (d : Dict (Entry E))
      → lookup j d ≡ none
      → lookup k d ≡ some v
      → lookup k ((j, w) ∷ d) ≡ some v
  unfolding lookup
  tail-there j k w v d a h = ground (arith, eq_iff j k)

  full-Stores :
      (n now : ℕ) (key : String) (e : E) (ttl : Option ℕ) (d : Dict (Entry E)) (m : ℕ)
      → 0 < n
      → m ≤ length d
      → IsBounded n (record { cache = d; max_size = m })
      → Stores n now key e ttl (record { cache = d; max_size = m })
  unfolding set evict
  full-Stores n now key e ttl [] m p f b = absurd (ground (arith, b.limit))
  full-Stores n now key e ttl ((j, w) ∷ d) m p f b = record {
    kept = d;
    stored = ground arith;
    room = ground (arith, b.size);
    kept_unique = b.unique.1;
    was_there = λ k v h. tail-there j k w v d b.unique.0 h;
  }

  pub set-Stores :
      (n now : ℕ) (key : String) (e : E) (ttl : Option ℕ) (c : MemoryCache E)
      → 0 < n
      → IsBounded n c
      → Stores n now key e ttl c
  unfolding set
  set-Stores n now key e ttl c p b = elim (Bool-cases (leb c.max_size (length c.cache))) [
    | inl f ↦ full-Stores n now key e ttl c.cache c.max_size p (ground arith) b
    | inr g ↦ record {
      kept = c.cache;
      stored = ground arith;
      room = ground (arith, b.limit);
      kept_unique = b.unique;
      was_there = λ k v h. h;
    }
  ]

  pub clear-IsBounded : (n : ℕ) (c : MemoryCache E) → IsBounded n c → IsBounded n (clear c)
  unfolding clear
  clear-IsBounded n c b = record { limit = b.limit; size = omega arith; unique = tt }

  pub new-IsBounded : (n : ℕ) → IsBounded {E = E} n (new n)
  unfolding new
  new-IsBounded n = record { limit = refl; size = omega arith; unique = tt }

  set-none :
      (now : ℕ) (key : String) (e : E) (ttl : Option ℕ) (d : Dict (Entry E)) (m : ℕ)
      → IsBounded 0 (record { cache = d; max_size = m })
      → set now key e ttl (record { cache = d; max_size = m })
        ≡ (record { cache = d; max_size = m }, false)
  unfolding set evict
  set-none now key e ttl [] m b = ground (arith, b.limit)
  set-none now key e ttl ((j, w) ∷ d) m b = absurd (ground (arith, b.size))

  pub set-IsBounded :
      (n now : ℕ) (key : String) (e : E) (ttl : Option ℕ) (c : MemoryCache E)
      → IsBounded n c
      → IsBounded n (set now key e ttl c).0
  set-IsBounded zero now key e ttl c b = rw (set-none now key e ttl c.cache c.max_size b) b
  set-IsBounded (suc n) now key e ttl c b =
      let s = set-Stores (suc n) now key e ttl c (omega arith) b in
      rw s.stored (
        store-IsBounded (suc n) key e (expiry now ttl) (record c { cache = s.kept }) b.limit s.room
          s.kept_unique)

  run-IsBounded :
      (n : ℕ) (xs : List (Call E)) (c : MemoryCache E) → IsBounded n c → IsBounded n (run xs c)
  unfolding run make
  run-IsBounded n [] c b = b
  run-IsBounded n (getting now key ∷ xs) c b =
      run-IsBounded n xs (get now key c).0 (get-IsBounded n now key c b)
  run-IsBounded n (setting now key e ttl ∷ xs) c b =
      run-IsBounded n xs (set now key e ttl c).0 (set-IsBounded n now key e ttl c b)
  run-IsBounded n (clearing ∷ xs) c b = run-IsBounded n xs (clear c) (clear-IsBounded n c b)

  store-done :
      (now : ℕ) (key : String) (e : E) (ttl : Option ℕ) (c : MemoryCache E)
      → (store key e (expiry now ttl) c).1 ≡ ends_in_time now ttl
  unfolding expiry
  store-done now key e none c = refl
  store-done now key e (some ttl) c = ground arith

  set-done :
      (n now : ℕ) (key : String) (e : E) (ttl : Option ℕ) (c : MemoryCache E)
      → IsBounded n c
      → (set now key e ttl c).1 ≡ (ltb 0 n && ends_in_time now ttl)
  set-done zero now key e ttl c b = ap (λ r. r.1) (set-none now key e ttl c.cache c.max_size b)
  set-done (suc n) now key e ttl c b =
      let s = set-Stores (suc n) now key e ttl c (omega arith) b in
      let done = ap (λ r. r.1) s.stored ∙ store-done now key e ttl (record c { cache = s.kept }) in
      let room : ltb 0 (suc n) ≡ true = ground arith in rw room done

  -- A new cache, after any row of calls at any times, those that raised among them, never holds more
  -- entries than its limit, nor one key twice; and a further `set` then raises exactly where the limit
  -- is 0, or where its expiry lies beyond the last datetime.
  pub run-new :
      (n : ℕ) (xs : List (Call E))
      → IsBounded n (run xs (new n))
        × ((now : ℕ) (key : String) (e : E) (ttl : Option ℕ)
            → (set now key e ttl (run xs (new n))).1 ≡ (ltb 0 n && ends_in_time now ttl))
  run-new n xs =
      let b = run-IsBounded n xs (new n) (new-IsBounded n) in
      (b, λ now key e ttl. set-done n now key e ttl (run xs (new n)) b)
