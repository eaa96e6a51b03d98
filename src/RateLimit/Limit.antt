-- ===== src/RateLimit/Limit.antt =====
-- app/middleware.py: the rate limit over every row of requests of clients whose address has no colon.
use devflowfix.Base.{
  ℕ, ◌+◌, ◌≤◌, ◌<◌, ◌≡◌, refl, ap, ◌∙◌, true, false, List, [], ◌∷◌, String, lookup, keep, any,
  str_eq, eq_iff, ◌==◌, Bool-cases, inl, inr, arith,
}
use devflowfix.RateLimit.{
  Limiter, minute_bucket, or_zero, key_of, is_rate_limited, dispatch, passed, limited,
}
use devflowfix.RateLimit.Keys.{has_colon}
use devflowfix.RateLimit.Cleanup.{AreReadable}
use devflowfix.RateLimit.Counts.{is_of, times, present, Counts, record_request-Counts}

pub record World : Type 0 where
  pub now : ℕ
  pub limiter : Limiter
  -- the requests that were let through, with the minute in which they were counted
  pub log : List (String × ℕ)

unfoldable pub fresh : ℕ → ℕ → World
fresh now limit = record {
  now = now;
  limiter = record { requests_per_minute = limit; request_counts = [] };
  log = [];
}

-- A request that is not on an excluded path, at clock readings that never run backwards.
pub data Step (w : World) : World → Type 0 where
  lets_through :
      (exclude_paths : List String) (now now' : ℕ) (path client : String)
      → w.now ≤ now
      → now ≤ now'
      → has_colon client ≡ false
      → any (str_eq path) exclude_paths ≡ false
      → is_rate_limited now client w.limiter ≡ false
      → Step w (record {
        now = now';
        limiter = (dispatch exclude_paths now now' path client w.limiter).0;
        log = (client, minute_bucket now') ∷ w.log;
      })
  turns_away :
      (exclude_paths : List String) (now now' : ℕ) (path client : String)
      → w.now ≤ now
      → any (str_eq path) exclude_paths ≡ false
      → is_rate_limited now client w.limiter ≡ true
      → Step w (record w {
        now = now;
        limiter = (dispatch exclude_paths now now' path client w.limiter).0;
      })

pub data Reach (w : World) : World → Type 0 where
  here : Reach w w
  next : {v u : World} → Reach w v → Step v u → Reach w u

pub record IsLimited (limit : ℕ) (w : World) : Type 0 where
  pub same_limit : w.limiter.requests_per_minute ≡ limit
  pub readable : AreReadable w.limiter.request_counts
  pub bounded : (x : String) (b : ℕ) → has_colon x ≡ false → times x b w.log ≤ limit
  pub exact :
      (x : String) (b : ℕ)
      → has_colon x ≡ false
      → minute_bucket w.now ≤ b + 1
      → or_zero (lookup (key_of x b) w.limiter.request_counts) ≡ times x b w.log
  pub past : (x : String) (b : ℕ) → minute_bucket w.now < b → times x b w.log ≡ 0

times-cons :
    (x : String) (b : ℕ) (e : String × ℕ) (log : List (String × ℕ))
    → times x b (e ∷ log) ≡ times x b log + present (is_of x b e)
unfolding times keep
times-cons x b e log = ground arith

dispatch-away :
    (ps : List String) (now now' : ℕ) (path client : String) (s : Limiter)
    → any (str_eq path) ps ≡ false
    → is_rate_limited now client s ≡ true
    → dispatch ps now now' path client s ≡ (s, limited)
unfolding dispatch
dispatch-away ps now now' path client s n e = rw (n, e) refl

dispatch-through :
    (ps : List String) (now now' : ℕ) (path client : String) (s : Limiter)
    → any (str_eq path) ps ≡ false
    → is_rate_limited now client s ≡ false
    → (c : Counts now' client s)
    → dispatch ps now now' path client s ≡ (record s { request_counts = c.counted }, passed)
unfolding dispatch
dispatch-through ps now now' path client s n e c = rw (n, e, c.recorded) refl

-- A client that is not limited has room in the minute of the count, which may be a later one.
room :
    (limit now now' : ℕ) (client : String) (w : World)
    → IsLimited limit w
    → w.now ≤ now
    → now ≤ now'
    → has_colon client ≡ false
    → is_rate_limited now client w.limiter ≡ false
    → times client (minute_bucket now') w.log < limit
unfolding is_rate_limited
room limit now now' client w g h h' f e =
    let here_ = g.exact client (minute_bucket now) f (omega arith) in
    let free : times client (minute_bucket now) w.log < limit =
      ground (arith, e, here_, g.same_limit) in
    elim (Bool-cases (minute_bucket now == minute_bucket now')) [
      | inl t ↦
          let same : minute_bucket now ≡ minute_bucket now' = ground (arith, t) in rw (← same) free
      | inr t ↦
          let none_yet = g.past client (minute_bucket now') (ground (arith, t)) in
          omega (arith, none_yet, free)
    ]

counted_bounded :
    (limit : ℕ) (client x : String) (b c : ℕ) (log : List (String × ℕ))
    → times client c log < limit
    → times x b log ≤ limit
    → times x b ((client, c) ∷ log) ≤ limit
counted_bounded limit client x b c log h k =
    let e = times-cons x b (client, c) log in
    elim (Bool-cases (is_of x b (client, c))) [
      | inl t ↦
          let p : client ≡ x = ground (arith, t, eq_iff client x) in
          let q : c ≡ b = ground (arith, t) in
          let same = ap (λ z. times z c log) p ∙ ap (λ m. times x m log) q in
          ground (arith, e, t, same, h)
      | inr t ↦ ground (arith, e, t, k)
    ]

through-IsLimited :
    (limit now now' : ℕ) (client : String) (w : World)
    → IsLimited limit w
    → w.now ≤ now
    → now ≤ now'
    → has_colon client ≡ false
    → is_rate_limited now client w.limiter ≡ false
    → (c : Counts now' client w.limiter)
    → IsLimited limit (record {
      now = now';
      limiter = record w.limiter { request_counts = c.counted };
      log = (client, minute_bucket now') ∷ w.log;
    })
through-IsLimited limit now now' client w g h h' f e c =
    let free = room limit now now' client w g h h' f e in
    record {
      same_limit = g.same_limit;
      readable = c.readable;
      bounded = λ x b k. counted_bounded limit client x b _ w.log free (g.bounded x b k);
      exact = λ x b k p. omega (
        arith,
        c.exact x b k p,
        g.exact x b k (omega arith),
        times-cons x b (client, minute_bucket now') w.log,
      );
      past = λ x b p.
          ground
            (arith, times-cons x b (client, minute_bucket now') w.log, g.past x b (omega arith));
    }

away-IsLimited :
    (limit now : ℕ) (w : World)
    → IsLimited limit w
    → w.now ≤ now
    → IsLimited limit (record w { now = now })
away-IsLimited limit now w g h = record {
  same_limit = g.same_limit;
  readable = g.readable;
  bounded = g.bounded;
  exact = λ x b k p. g.exact x b k (omega arith);
  past = λ x b p. g.past x b (omega arith);
}

Step-IsLimited : (limit : ℕ) (w v : World) → Step w v → IsLimited limit w → IsLimited limit v
Step-IsLimited limit w v (turns_away ps now now' path client h n e) g =
    let d = dispatch-away ps now now' path client w.limiter n e in
    rw d (away-IsLimited limit now w g h)
Step-IsLimited limit w v (lets_through ps now now' path client h h' f n e) g =
    let c = record_request-Counts now' client w.limiter f g.readable in
    let d = dispatch-through ps now now' path client w.limiter n e c in
    rw d (through-IsLimited limit now now' client w g h h' f e c)

-- Over every row of requests of clients whose addresses have no colon, at times that never run
-- backwards, also where a request is tested in one minute and counted in the next: no more requests
-- of one client are let through in one minute than the limit, the counts of this minute and the last
-- are exact, and the minute of every key can be read, so no clean-up raises.
pub Reach-IsLimited : (limit now : ℕ) (w : World) → Reach (fresh now limit) w → IsLimited limit w
unfolding fresh times keep lookup
Reach-IsLimited limit now w here = record {
  same_limit = refl;
  readable = tt;
  bounded = λ x b k. omega arith;
  exact = λ x b k p. refl;
  past = λ x b p. refl;
}
Reach-IsLimited limit now w (next r st) =
    Step-IsLimited limit _ w st (Reach-IsLimited limit now _ r)
