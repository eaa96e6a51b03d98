-- ===== src/Tokens.antt =====
-- app/services/oauth/token_manager.py: OAuth tokens, encrypted at rest, and the connections that hold
-- them. The cipher is the one of the library that the code calls; each encryption draws a new random
-- number. The table is a list of rows. Texts are encoded and decoded by the cipher.
pub mod Storage
pub mod Connections
pub mod Tests
use devflowfix.Base.{
  ℕ, Bool, true, false, ◌&&◌, Option, none, some, List, [], ◌∷◌, ◌++◌, String, find, change_first,
  truthy, str_eq, if◌then◌else◌,
}

-- `Fernet(key)`; `none` is the exception for a text that it did not encrypt.
pub record Cipher : Type 0 where
  pub encrypt : ℕ → String → String
  pub decrypt : String → Option String

-- `cipher_suite`: without a key nothing is encrypted.
abbrev pub TokenManager : Type 0
TokenManager = Option Cipher

unfoldable pub encrypt_token : TokenManager → ℕ → String → String
encrypt_token none nonce token = token
encrypt_token (some c) nonce token = c.encrypt nonce token

unfoldable pub decrypt_token : TokenManager → String → Option String
decrypt_token none encrypted_token = some encrypted_token
decrypt_token (some c) encrypted_token = c.decrypt encrypted_token

-- A row of the table.
pub record Connection : Type 0 where
  pub id : String
  pub user_id : String
  pub provider : String
  pub provider_user_id : String
  pub provider_username : String
  pub access_token : String
  pub refresh_token : Option String
  pub scopes : List String
  pub token_expires_at : Option ℕ
  pub is_active : Bool
  pub created_at : ℕ
  pub updated_at : ℕ
  pub last_used_at : Option ℕ

-- The arguments of `store_oauth_connection`.
pub record Grant : Type 0 where
  pub user_id : String
  pub provider : String
  pub provider_user_id : String
  pub provider_username : String
  pub access_token : String
  pub refresh_token : Option String
  pub scopes : List String
  pub expires_at : Option ℕ

-- What a call draws: two random numbers of the cipher, a new identifier, and the clock, twice.
pub record Draws : Type 0 where
  pub nonce : ℕ
  pub second_nonce : ℕ
  pub id : String
  pub now : ℕ
  pub later : ℕ

abbrev pub is_of : String → String → Connection → Bool
is_of user provider c = str_eq c.user_id user && str_eq c.provider provider

abbrev pub is_live : String → String → Connection → Bool
is_live user provider c = is_of user provider c && c.is_active

abbrev encrypt_some : TokenManager → ℕ → Option String → Option String
encrypt_some m nonce none = none
encrypt_some m nonce (some t) = if truthy (some t) then some (encrypt_token m nonce t) else none

unfoldable pub refreshed : TokenManager → Draws → Grant → Connection → Connection
refreshed m d g c = record c {
  provider_user_id = g.provider_user_id;
  provider_username = g.provider_username;
  access_token = encrypt_token m d.nonce g.access_token;
  refresh_token = encrypt_some m d.second_nonce g.refresh_token;
  scopes = g.scopes;
  token_expires_at = g.expires_at;
  is_active = true;
  updated_at = d.now;
}

unfoldable pub connected : TokenManager → Draws → Grant → Connection
connected m d g = record {
  id = d.id;
  user_id = g.user_id;
  provider = g.provider;
  provider_user_id = g.provider_user_id;
  provider_username = g.provider_username;
  access_token = encrypt_token m d.nonce g.access_token;
  refresh_token = encrypt_some m d.second_nonce g.refresh_token;
  scopes = g.scopes;
  token_expires_at = g.expires_at;
  is_active = true;
  created_at = d.now;
  updated_at = d.later;
  last_used_at = none;
}

abbrev pub store_found :
    TokenManager
    → Draws
    → Grant
    → Option Connection
    → List Connection
    → List Connection × Connection
store_found m d g none s = (s ++ connected m d g ∷ [], connected m d g)
store_found m d g (some c) s =
    (change_first (is_of g.user_id g.provider) (refreshed m d g) s, refreshed m d g c)

unfoldable pub store_oauth_connection :
    TokenManager → Draws → Grant → List Connection → List Connection × Connection
store_oauth_connection m d g s = store_found m d g (find (is_of g.user_id g.provider) s) s

unfoldable pub used : ℕ → Connection → Connection
used now c = record c { last_used_at = some now }

abbrev pub map_some {ℓ ℓ'} : {A : Type ℓ} → {B : Type ℓ'} → (A → B) → Option A → Option B
map_some f none = none
map_some f (some a) = some (f a)

-- Where no row is found none is changed.
unfoldable pub get_oauth_connection :
    ℕ → String → String → List Connection → List Connection × Option Connection
get_oauth_connection now user provider s = (
  change_first (is_live user provider) (used now) s,
  map_some (used now) (find (is_live user provider) s),
)

unfoldable pub get_decrypted_token : TokenManager → Connection → Option String
get_decrypted_token m c = decrypt_token m c.access_token

abbrev pub is_mine : String → String → Connection → Bool
is_mine id user c = str_eq c.id id && str_eq c.user_id user

unfoldable pub deactivated : ℕ → Connection → Connection
deactivated now c = record c { is_active = false; updated_at = now }

abbrev pub revoke_found :
    ℕ → String → String → Option Connection → List Connection → List Connection × Bool
revoke_found now id user none s = (s, false)
revoke_found now id user (some c) s = (change_first (is_mine id user) (deactivated now) s, true)

unfoldable pub revoke_oauth_connection :
    ℕ → String → String → List Connection → List Connection × Bool
revoke_oauth_connection now id user s = revoke_found now id user (find (is_mine id user) s) s
