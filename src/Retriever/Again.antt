-- ===== src/Retriever/Again.antt =====
-- app/services/retriever.py: what the cache answers.
use devflowfix.Base.{
  ℕ, ◌+◌, ◌≤◌, ◌≡◌, refl, ap, ◌∙◌, Bool, true, false, Option, none, some, List, [], ◌∷◌, String,
  Dict, lookup, lookup-insert, insert, keep, length, ltb, str_eq, eq_iff, Bool-cases, inl, inr,
  arith,
}
use devflowfix.Retriever.{
  Row, Retrieved, Options, VectorRepository, RetrieverService, Readings, top_k_or, top_k_of,
  get_from_cache, is_kept, cleanup_cache, set_cache, build_cache_key, transform_results, search,
  retrieve_similar_incidents,
}

lookup-keep :
    (p : String × (List Retrieved × ℕ) → Bool) (k : String) (v : List Retrieved × ℕ)
    (d : Dict (List Retrieved × ℕ))
    → lookup k d ≡ some v
    → ((j : String) → p (j, v) ≡ true)
    → lookup k (keep p d) ≡ some v
unfolding lookup keep
lookup-keep p k v [] e h = e
lookup-keep p k v ((j, w) ∷ d) e h = elim (Bool-cases (str_eq j k)) [
  | inl t ↦
      let same : w ≡ v = ground (arith, e, t) in
      let passes : p (j, w) ≡ true = rw same (h j) in ground (arith, t, passes, same)
  | inr t ↦ ground (arith, t, lookup-keep p k v d (ground (arith, e, t)) h)
]

-- What was stored is there, if the clean-up that may follow comes before its time is over.
lookup-set_cache :
    (stored cleaned : ℕ) (key : String) (results : List Retrieved) (s : RetrieverService)
    → cleaned ≤ stored + s.cache_ttl
    → (lookup key (set_cache stored cleaned key results s).cache ≡ some (results, stored))
      × ((set_cache stored cleaned key results s).cache_ttl ≡ s.cache_ttl)
      × ((set_cache stored cleaned key results s).default_top_k ≡ s.default_top_k)
unfolding set_cache cleanup_cache
lookup-set_cache stored cleaned key results s h =
    let there : lookup key (insert key (results, stored) s.cache) ≡ some (results, stored) =
      ground (arith, lookup-insert key key (results, stored) s.cache, eq_iff key key) in
    let kept =
      lookup-keep (is_kept s.cache_ttl cleaned) key (results, stored)
        (insert key (results, stored) s.cache) there (λ j. ground (arith, h)) in
    elim (Bool-cases (ltb 1000 (length (insert key (results, stored) s.cache)))) [
      | inl t ↦ rw t (kept, refl, refl)
      | inr t ↦ rw t (there, refl, refl)
    ]

top_k-same :
    (s s' : RetrieverService) (o o' : Options)
    → s'.default_top_k ≡ s.default_top_k
    → o'.top_k ≡ o.top_k
    → top_k_of s' o' ≡ top_k_of s o
unfolding top_k_of
top_k-same s s' o o' h k = ap (λ d. top_k_or d o'.top_k) h ∙ ap (λ n. top_k_or s.default_top_k n) k

module _ {ℓ} {E : Type ℓ} (round : ℕ → ℕ) (embed_incident : String → Option E) where
  first_answer :
      (c : Readings) (repo : VectorRepository E) (incident_id : String) (o : Options)
      (s : RetrieverService) (rows : List (Row × ℕ)) (x : Retrieved) (xs : List Retrieved)
      → let k = top_k_of s o in
        let key = build_cache_key incident_id k o.source_filter o.only_resolved in
        lookup key s.cache ≡ none
        → search round embed_incident repo incident_id k o ≡ some rows
        → transform_results round c.searched o.max_age_days rows ≡ x ∷ xs
        → retrieve_similar_incidents round embed_incident c (some repo) incident_id o s
          ≡ (set_cache c.stored c.cleaned key (x ∷ xs) s, x ∷ xs)
  unfolding retrieve_similar_incidents get_from_cache
  first_answer c repo incident_id o s rows x xs m f e = rw (m, f, e) refl

  hit_answer :
      (c : Readings) (repo : Option (VectorRepository E)) (incident_id : String) (o : Options)
      (s : RetrieverService) (t : ℕ) (x : Retrieved) (xs : List Retrieved)
      → lookup (build_cache_key incident_id (top_k_of s o) o.source_filter o.only_resolved) s.cache
        ≡ some (x ∷ xs, t)
      → c.looked ≤ t + s.cache_ttl
      → (retrieve_similar_incidents round embed_incident c repo incident_id o s).1 ≡ x ∷ xs
  unfolding retrieve_similar_incidents get_from_cache
  hit_answer c repo incident_id o s t x xs e h =
      let fresh : ltb (t + s.cache_ttl) c.looked ≡ false = ground arith in rw (e, fresh) refl

  -- A search that finds something is answer_of from the cache as long as its entry lives, also to a
  -- call that asks for less: of the same incident, number, source and only_resolved, it gets the
  -- incidents of the first call, whatever its threshold, its least confidence and its greatest age, and
  -- whatever the repository would answer by then. Before, the cache holds no entry under that key, and
  -- no clean-up comes after the time of the new one.
  pub retrieve-again :
      (c c' : Readings) (repo : VectorRepository E) (repo' : Option (VectorRepository E))
      (incident_id : String) (o o' : Options) (s : RetrieverService) (rows : List (Row × ℕ))
      (x : Retrieved) (xs : List Retrieved)
      → let k = top_k_of s o in
        let key = build_cache_key incident_id k o.source_filter o.only_resolved in
        lookup key s.cache ≡ none
        → search round embed_incident repo incident_id k o ≡ some rows
        → transform_results round c.searched o.max_age_days rows ≡ x ∷ xs
        → c.cleaned ≤ c.stored + s.cache_ttl
        → c'.looked ≤ c.stored + s.cache_ttl
        → o'.top_k ≡ o.top_k
        → o'.source_filter ≡ o.source_filter
        → o'.only_resolved ≡ o.only_resolved
        → let first =
            retrieve_similar_incidents round embed_incident c (some repo) incident_id o s in
          (first.1 ≡ x ∷ xs)
          × ((retrieve_similar_incidents round embed_incident c' repo' incident_id o' first.0).1
              ≡ x ∷ xs)
  retrieve-again c c' repo repo' incident_id o o' s rows x xs m f e h g a b d =
      let key = build_cache_key incident_id (top_k_of s o) o.source_filter o.only_resolved in
      let first = first_answer c repo incident_id o s rows x xs m f e in
      let (there, ttl, top) = lookup-set_cache c.stored c.cleaned key (x ∷ xs) s h in
      let s' = set_cache c.stored c.cleaned key (x ∷ xs) s in
      let number = top_k-same s s' o o' top a in
      let hit =
        hit_answer c' repo' incident_id o' s' c.stored x xs (rw (number, b, d) there) (rw ttl g) in
      (rw first refl, rw first hit)
