-- ===== src/Cache.antt =====
-- app/adapters/ai/nvidia/cache.py: the embedding cache in memory. Its dictionary keeps the order of
-- insertion. Times are the microseconds since the year 1 began, where those of a datetime start;
-- `ttl` counts seconds and is not negative. The cache behind Redis calls its client.
pub mod Bounds
pub mod Reads
mod Tests
use devflowfix.Base.{
  ℕ, suc, ◌+◌, ◌*◌, Bool, true, false, Option, none, some, List, [], ◌∷◌, String, Dict, lookup,
  insert, erase, length, ltb, leb, ◌==◌, if◌then◌else◌,
}

-- An entry: the embedding, and when it expires.
pub record Entry {ℓ} (E : Type ℓ) : Type ℓ where
  pub embedding : E
  pub expires_at : Option ℕ

pub record MemoryCache {ℓ} (E : Type ℓ) : Type ℓ where
  pub cache : Dict (Entry E)
  pub max_size : ℕ

abbrev pub second : ℕ
second = 1000000

-- expires_at and now > expires_at
abbrev pub has_expired : ℕ → Option ℕ → Bool
has_expired now none = false
has_expired now (some t) = ltb t now

-- datetime.max, the end of the year 9999
abbrev pub datetime_max : ℕ
datetime_max = 315537897599999999

-- now + timedelta(seconds=ttl), where a ttl is given that is not 0: `none` is the OverflowError of a
-- sum beyond the last datetime.
unfoldable pub expiry : ℕ → Option ℕ → Option (Option ℕ)
expiry now none = some none
expiry now (some ttl) =
    if ttl == 0
    then some none
    else if ltb datetime_max (now + ttl * second)
    then none
    else some (some (now + ttl * second))

module _ {ℓ} {E : Type ℓ} where
  -- `MemoryEmbeddingCache(max_size)`
  unfoldable pub new : ℕ → MemoryCache E
  new max_size = record { cache = []; max_size = max_size }

  abbrev pub read : ℕ → String → MemoryCache E → Option (Entry E) → MemoryCache E × Option E
  read now key c none = (c, none)
  read now key c (some e) =
      if has_expired now e.expires_at
      then (record c { cache = erase key c.cache }, none)
      else (c, some e.embedding)

  unfoldable pub get : ℕ → String → MemoryCache E → MemoryCache E × Option E
  get now key c = read now key c (lookup key c.cache)

  -- The entry is written once its expiry is known; the answer is whether nothing was raised.
  abbrev pub store : String → E → Option (Option ℕ) → MemoryCache E → MemoryCache E × Bool
  store key e none c = (c, false)
  store key e (some expires_at) c = (
    record c { cache = insert key (record { embedding = e; expires_at = expires_at }) c.cache },
    true,
  )

  -- The oldest entry goes where the cache is full; `none` is the StopIteration of an empty one.
  unfoldable pub evict : Dict (Entry E) → Option (Dict (Entry E))
  evict [] = none
  evict ((key, _) ∷ d) = some d

  abbrev pub store_after :
      ℕ → String → E → Option ℕ → MemoryCache E → Option (Dict (Entry E)) → MemoryCache E × Bool
  store_after now key e ttl c none = (c, false)
  store_after now key e ttl c (some d) = store key e (expiry now ttl) (record c { cache = d })

  -- An expiry that raises comes after the eviction, which stays.
  unfoldable pub set : ℕ → String → E → Option ℕ → MemoryCache E → MemoryCache E × Bool
  set now key e ttl c =
      if leb c.max_size (length c.cache)
      then store_after now key e ttl c (evict c.cache)
      else store key e (expiry now ttl) c

  unfoldable pub clear : MemoryCache E → MemoryCache E
  clear c = record c { cache = [] }
