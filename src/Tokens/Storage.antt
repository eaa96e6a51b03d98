-- ===== src/Tokens/Storage.antt =====
-- app/services/oauth/token_manager.py: what is stored is read back.
use devflowfix.Base.{
  find-change, find-last, find-unchanged, find-append-none, find-passes, ℕ, ◌≡◌, refl, ap, true,
  false, ◌&&◌, Option, none, some, List, String, find, str_eq, eq_iff, arith,
}
use devflowfix.Tokens.{
  TokenManager, encrypt_token, decrypt_token, Connection, Grant, Draws, is_of, is_live, refreshed,
  connected, store_found, store_oauth_connection, used, map_some, get_oauth_connection,
  get_decrypted_token,
}

-- Fernet gives back what it encrypted.
abbrev pub IsLawful : TokenManager → Type 0
IsLawful m = (nonce : ℕ) (t : String) → decrypt_token m (encrypt_token m nonce t) ≡ some t

pub narrower :
    (user provider : String) (c : Connection)
    → is_live user provider c ≡ true
    → is_of user provider c ≡ true
narrower user provider c h = ground (arith, h)

-- A connection of one user and provider is none of another user or provider.
pub other_is_not :
    (u p user provider : String) (c : Connection)
    → (str_eq user u && str_eq provider p) ≡ false
    → is_of user provider c ≡ true
    → is_live u p c ≡ false
other_is_not u p user provider c n h = ground (
  arith,
  n,
  h,
  eq_iff c.user_id user,
  eq_iff c.provider provider,
  eq_iff c.user_id u,
  eq_iff c.provider p,
  eq_iff user u,
  eq_iff provider p,
)

-- A connection that holds what was granted, its token encrypted.
pub record Holds (m : TokenManager) (g : Grant) (c : Connection) : Type 0 where
  pub token : get_decrypted_token m c ≡ some g.access_token
  pub active : c.is_active ≡ true
  pub owner : c.user_id ≡ g.user_id
  pub of_provider : c.provider ≡ g.provider
  pub granted : c.scopes ≡ g.scopes
  pub expiry : c.token_expires_at ≡ g.expires_at

store_found-live :
    (m : TokenManager) (d : Draws) (g : Grant) (o : Option Connection) (s : List Connection)
    → IsLawful m
    → find (is_of g.user_id g.provider) s ≡ o
    → (c : Connection) × (find (is_live g.user_id g.provider) (store_found m d g o s).0 ≡ some c)
      × Holds m g c
unfolding refreshed connected get_decrypted_token
store_found-live m d g none s l e = (
  connected m d g,
  find-last (is_of g.user_id g.provider) (is_live g.user_id g.provider) s (connected m d g) e
      (narrower g.user_id g.provider)
      (ground (arith, eq_iff g.user_id g.user_id, eq_iff g.provider g.provider)),
  record {
    token = l d.nonce g.access_token;
    active = refl;
    owner = refl;
    of_provider = refl;
    granted = refl;
    expiry = refl;
  },
)
store_found-live m d g (some c) s l e =
    let p = find-passes (is_of g.user_id g.provider) s c e in
    (
      refreshed m d g c,
      find-change (is_of g.user_id g.provider) (is_live g.user_id g.provider) (refreshed m d g) s c
          e (narrower g.user_id g.provider) (ground (arith, p)),
      record {
        token = l d.nonce g.access_token;
        active = refl;
        owner = ground (arith, p, eq_iff c.user_id g.user_id);
        of_provider = ground (arith, p, eq_iff c.provider g.provider);
        granted = refl;
        expiry = refl;
      },
    )

store_found-other :
    (m : TokenManager) (d : Draws) (g : Grant) (o : Option Connection) (s : List Connection)
    (u p : String)
    → (str_eq g.user_id u && str_eq g.provider p) ≡ false
    → find (is_live u p) (store_found m d g o s).0 ≡ find (is_live u p) s
unfolding refreshed connected
store_found-other m d g none s u p n =
    find-append-none (is_live u p) s (connected m d g) (ground (arith, n))
store_found-other m d g (some c) s u p n =
    find-unchanged (is_of g.user_id g.provider) (is_live u p) (refreshed m d g) s
      (λ y h. other_is_not u p g.user_id g.provider y n h)
      (λ y h. other_is_not u p g.user_id g.provider (refreshed m d g y) n h)

-- With a cipher that gives back what it encrypted, or without one: whatever was stored before, also a
-- revoked connection, after a grant is stored the connection of its user and provider is found, is
-- active, and decrypts to the token of the grant, with its scopes and expiry; and what is found for
-- any other user or provider is what was found before.
pub get-store :
    (m : TokenManager) (d : Draws) (g : Grant) (s : List Connection) (now : ℕ)
    → IsLawful m
    → let t = (store_oauth_connection m d g s).0 in
      ((c : Connection) × ((get_oauth_connection now g.user_id g.provider t).1 ≡ some c)
        × Holds m g c)
      × ((u p : String)
          → (str_eq g.user_id u && str_eq g.provider p) ≡ false
          → (get_oauth_connection now u p t).1 ≡ (get_oauth_connection now u p s).1)
unfolding store_oauth_connection get_oauth_connection used get_decrypted_token
get-store m d g s now l =
    let o = find (is_of g.user_id g.provider) s in
    let (c, e, h) = store_found-live m d g o s l refl in
    (
      (
        used now c,
        ap (map_some (used now)) e,
        record {
          token = h.token;
          active = h.active;
          owner = h.owner;
          of_provider = h.of_provider;
          granted = h.granted;
          expiry = h.expiry;
        },
      ),
      λ u p n. ap (map_some (used now)) (store_found-other m d g o s u p n),
    )
