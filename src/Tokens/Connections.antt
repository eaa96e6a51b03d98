-- ===== src/Tokens/Connections.antt =====
-- app/services/oauth/token_manager.py: the connections of one table over every row of calls.
use devflowfix.Base.{
  count, count-change, find-count-none, find-gone, find-unchanged, ℕ, ◌≤◌, ◌≡◌, refl, ap, sym, ◌∙◌,
  true, false, ◌&&◌, Option, none, some, List, [], ◌∷◌, String, find, keep, length-keep-append,
  str_eq, eq_iff, Bool-cases, Option-cases, inl, inr, arith,
}
use devflowfix.Tokens.{
  TokenManager, Connection, Grant, Draws, is_of, is_live, is_mine, refreshed, connected,
  store_found, store_oauth_connection, used, map_some, get_oauth_connection, deactivated,
  revoke_found, revoke_oauth_connection,
}
use devflowfix.Tokens.Storage.{narrower}

pub data Call : Type 0 where
  stores : TokenManager → Draws → Grant → Call
  gets : (now : ℕ) (user provider : String) → Call
  revokes : (now : ℕ) (id user : String) → Call

unfoldable pub perform : Call → List Connection → List Connection
perform (stores m d g) s = (store_oauth_connection m d g s).0
perform (gets now user provider) s = (get_oauth_connection now user provider s).0
perform (revokes now id user) s = (revoke_oauth_connection now id user s).0

unfoldable pub run : List Call → List Connection → List Connection
run [] s = s
run (c ∷ cs) s = run cs (perform c s)

-- No user has two connections of one provider.
abbrev pub AreDistinct : List Connection → Type 0
AreDistinct s = (user provider : String) → count (is_of user provider) s ≤ 1

store_found-AreDistinct :
    (m : TokenManager) (d : Draws) (g : Grant) (o : Option Connection) (s : List Connection)
    → find (is_of g.user_id g.provider) s ≡ o
    → AreDistinct s
    → AreDistinct (store_found m d g o s).0
unfolding count keep connected refreshed
store_found-AreDistinct m d g none s e h user provider =
    let none_yet = find-count-none (is_of g.user_id g.provider) s e in
    let grown = length-keep-append (is_of user provider) s (connected m d g ∷ []) in
    elim (Bool-cases (str_eq g.user_id user && str_eq g.provider provider)) [
      | inl t ↦
          let u : g.user_id ≡ user = ground (arith, t, eq_iff g.user_id user) in
          let p : g.provider ≡ provider = ground (arith, t, eq_iff g.provider provider) in
          let empty : count (is_of user provider) s ≡ 0 =
            ap (λ z. count (is_of z provider) s) (sym u)
            ∙ ap (λ z. count (is_of g.user_id z) s) (sym p)
            ∙ none_yet in
          ground (arith, grown, empty, t)
      | inr t ↦ ground (arith, grown, t, h user provider)
    ]
store_found-AreDistinct m d g (some c) s e h user provider =
    let same =
      count-change (is_of g.user_id g.provider) (is_of user provider) (refreshed m d g) s
        (λ y. refl) in
    omega (arith, same, h user provider)

perform-AreDistinct : (c : Call) (s : List Connection) → AreDistinct s → AreDistinct (perform c s)
unfolding perform store_oauth_connection get_oauth_connection revoke_oauth_connection used
    deactivated
perform-AreDistinct (stores m d g) s h u p =
    store_found-AreDistinct m d g (find (is_of g.user_id g.provider) s) s refl h u p
perform-AreDistinct (gets now user provider) s h u p =
    let same = count-change (is_live user provider) (is_of u p) (used now) s (λ y. refl) in
    omega (arith, same, h u p)
perform-AreDistinct (revokes now id user) s h u p =
    let same = count-change (is_mine id user) (is_of u p) (deactivated now) s (λ y. refl) in
    ground (arith, same, h u p, Option-cases (find (is_mine id user) s))

run-distinct : (cs : List Call) (s : List Connection) → AreDistinct s → AreDistinct (run cs s)
unfolding run
run-distinct [] s h = h
run-distinct (c ∷ cs) s h = run-distinct cs (perform c s) (perform-AreDistinct c s h)

-- After any row of calls on an empty table no user has two connections of one provider, also where
-- connections were revoked and stored again.
run-AreDistinct : (cs : List Call) → AreDistinct (run cs [])
unfolding count keep
run-AreDistinct cs = run-distinct cs [] (λ user provider. omega arith)

revoke_found-verdict :
    (now now' : ℕ) (id user : String) (c : Connection) (o : Option Connection) (s : List Connection)
    → AreDistinct s
    → find (is_mine id user) s ≡ some c
    → o ≡ some c
    → (find (is_live c.user_id c.provider) (revoke_found now id user o s).0 ≡ none)
      × ((revoke_found now id user o s).1 ≡ true)
unfolding deactivated
revoke_found-verdict now now' id user c none s h e f = absurd (ground (arith, f))
revoke_found-verdict now now' id user c (some b) s h e f = (
  find-gone (is_mine id user) (is_of c.user_id c.provider) (is_live c.user_id c.provider)
      (deactivated now) s c e
      (ground (arith, eq_iff c.user_id c.user_id, eq_iff c.provider c.provider)) (ground arith)
      (narrower c.user_id c.provider) (h c.user_id c.provider),
  refl,
)

revoke_found-other :
    (now : ℕ) (id user u p : String) (o : Option Connection) (s : List Connection)
    → str_eq user u ≡ false
    → find (is_live u p) (revoke_found now id user o s).0 ≡ find (is_live u p) s
unfolding deactivated
revoke_found-other now id user u p none s n = refl
revoke_found-other now id user u p (some c) s n =
    find-unchanged (is_mine id user) (is_live u p) (deactivated now) s
      (λ y h. ground (arith, n, h, eq_iff y.user_id user, eq_iff y.user_id u, eq_iff user u))
      (λ y h. ground arith)

-- Revoking, in a table where no user has two connections of one provider: by its owner a connection
-- is revoked, and then none of that user and provider is found until one is stored again; where the
-- identifier is not one of the user's connections nothing changes and the answer is false. What is
-- found for another user never changes.
revoke-get :
    (now now' : ℕ) (id user : String) (s : List Connection)
    → AreDistinct s
    → let r = revoke_oauth_connection now id user s in
      ((c : Connection)
        → find (is_mine id user) s ≡ some c
        → (r.1 ≡ true) × ((get_oauth_connection now' c.user_id c.provider r.0).1 ≡ none))
      × (find (is_mine id user) s ≡ none → r ≡ (s, false))
      × ((u p : String)
          → str_eq user u ≡ false
          → (get_oauth_connection now' u p r.0).1 ≡ (get_oauth_connection now' u p s).1)
unfolding revoke_oauth_connection get_oauth_connection
revoke-get now now' id user s h = (
  λ c e.
      let (gone, done) =
        revoke_found-verdict now now' id user c (find (is_mine id user) s) s h e e in
      (done, ap (map_some (used now')) gone),
  λ e. rw e refl,
  λ u p n.
      ap (map_some (used now')) (revoke_found-other now id user u p (find (is_mine id user) s) s n),
)
