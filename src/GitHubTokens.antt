-- ===== src/GitHubTokens.antt =====
-- app/services/github_token_manager.py and its table of models.py: a user's access tokens for
-- repositories and for whole organizations. The table is a list of rows. The cipher is that of
-- Tokens; it never fails to encrypt.
pub mod Lookup
pub mod Retired
mod Tests
use devflowfix.Base.{
  ℕ, Bool, true, false, not, ◌&&◌, ◌||◌, Option, none, some, is_some, List, [], ◌∷◌, ◌++◌, String,
  find, change_first, keep, join, join_all, truthy, str_eq, if◌then◌else◌,
}
use devflowfix.Tokens.{Cipher, encrypt_token, decrypt_token}

-- A row of the table.
pub record GitHubToken : Type 0 where
  pub id : String
  pub user_id : String
  pub repository_owner : String
  pub repository_name : Option String
  pub repository_full : String
  pub token : String
  pub is_encrypted : Bool
  pub created_at : ℕ
  pub updated_at : ℕ
  pub last_used_at : Option ℕ
  pub scopes : Option String
  pub is_active : Bool
  pub is_valid : Bool
  pub description : Option String
  pub created_by : Option String

-- The arguments of `register_token`.
pub record Registration : Type 0 where
  pub user_id : String
  pub owner : String
  pub repo : Option String
  pub token : String
  pub description : String
  pub scopes : List String
  pub created_by : String

-- What a call draws: the random number of the cipher, an identifier, and the clock, twice.
pub record Draws : Type 0 where
  pub nonce : ℕ
  pub id : String
  pub now : ℕ
  pub later : ℕ

abbrev or_blank : Option String → String
or_blank none = ""
or_blank (some s) = s

-- f"{owner}/{repo}" if repo else f"{owner}/*"
abbrev pub organization : String → String
organization owner = join owner "/*"

abbrev pub full_name : String → Option String → String
full_name owner repo =
    if truthy repo then join owner (join "/" (or_blank repo)) else organization owner

abbrev pub is_for : String → String → GitHubToken → Bool
is_for user full r = str_eq r.user_id user && str_eq r.repository_full full

abbrev pub is_usable : String → String → GitHubToken → Bool
is_usable user full r = is_for user full r && (r.is_active && r.is_valid)

abbrev joined : List String → Option String
joined [] = none
joined (s ∷ scopes) = some (join_all "," (s ∷ scopes))

abbrev kept_scopes : List String → Option String → Option String
kept_scopes [] old = old
kept_scopes (s ∷ scopes) old = joined (s ∷ scopes)

-- `_cipher_suite`
abbrev pub GitHubTokenManager : Type 0
GitHubTokenManager = Option Cipher

-- Without a cipher, or where it does not read the text, the text is returned as it is stored.
abbrev pub or_stored : String → Option String → String
or_stored stored none = stored
or_stored stored (some t) = t

unfoldable pub decrypt_or_keep : GitHubTokenManager → String → String
decrypt_or_keep m stored = or_stored stored (decrypt_token m stored)

unfoldable pub renewed : GitHubTokenManager → Draws → Registration → GitHubToken → GitHubToken
renewed m d g r = record r {
  token = encrypt_token m d.nonce g.token;
  description = some g.description;
  updated_at = d.now;
  is_active = true;
  is_valid = true;
  scopes = kept_scopes g.scopes r.scopes;
}

unfoldable pub registered : GitHubTokenManager → Draws → Registration → GitHubToken
registered m d g = record {
  id = d.id;
  user_id = g.user_id;
  repository_owner = g.owner;
  repository_name = g.repo;
  repository_full = full_name g.owner g.repo;
  token = encrypt_token m d.nonce g.token;
  is_encrypted = is_some m;
  created_at = d.now;
  updated_at = d.later;
  last_used_at = none;
  scopes = joined g.scopes;
  is_active = true;
  is_valid = true;
  description = some g.description;
  created_by = some g.created_by;
}

abbrev pub register_found :
    GitHubTokenManager
    → Draws
    → Registration
    → Option GitHubToken
    → List GitHubToken
    → List GitHubToken
register_found m d g none s = s ++ registered m d g ∷ []
register_found m d g (some r) s =
    change_first (is_for g.user_id (full_name g.owner g.repo)) (renewed m d g) s

unfoldable pub register_token :
    GitHubTokenManager → Draws → Registration → List GitHubToken → List GitHubToken
register_token m d g s =
    register_found m d g (find (is_for g.user_id (full_name g.owner g.repo)) s) s

unfoldable pub used : ℕ → GitHubToken → GitHubToken
used now r = record r { last_used_at = some now }

-- A usable token of one full name is marked as used and returned.
abbrev pub take_found :
    GitHubTokenManager
    → ℕ
    → String
    → String
    → Option GitHubToken
    → List GitHubToken
    → List GitHubToken × Option String
take_found m now user full none s = (s, none)
take_found m now user full (some r) s =
    (change_first (is_usable user full) (used now) s, some (decrypt_or_keep m r.token))

unfoldable pub take_token :
    GitHubTokenManager → ℕ → String → String → List GitHubToken → List GitHubToken × Option String
take_token m now user full s = take_found m now user full (find (is_usable user full) s) s

-- That of the repository first, where one is asked for, then that of the organization.
unfoldable pub get_token :
    GitHubTokenManager
    → ℕ
    → String
    → String
    → Option String
    → List GitHubToken
    → List GitHubToken × Option String
get_token m now user owner repo s =
    if truthy repo && is_some (find (is_usable user (full_name owner repo)) s)
    then take_token m now user (full_name owner repo) s
    else take_token m now user (organization owner) s

abbrev pub owned_by : Option String → GitHubToken → Bool
owned_by user r = not (truthy user) || str_eq r.user_id (or_blank user)

abbrev pub is_token : String → Option String → GitHubToken → Bool
is_token id user r = str_eq r.id id && owned_by user r

unfoldable pub retired : GitHubToken → GitHubToken
retired r = record r { is_active = false }

abbrev pub deactivate_found :
    String → Option String → Option GitHubToken → List GitHubToken → List GitHubToken × Bool
deactivate_found id user none s = (s, false)
deactivate_found id user (some r) s = (change_first (is_token id user) retired s, true)

unfoldable pub deactivate_token :
    String → Option String → List GitHubToken → List GitHubToken × Bool
deactivate_token id user s = deactivate_found id user (find (is_token id user) s) s

unfoldable pub validate_token :
    GitHubTokenManager
    → ℕ
    → String
    → String
    → Option String
    → List GitHubToken
    → List GitHubToken × Bool
validate_token m now user owner repo s =
    let (t, o) = get_token m now user owner repo s in (t, truthy o)

abbrev is_shown : String → Option String → Bool → GitHubToken → Bool
is_shown user owner active_only r =
    str_eq r.user_id user
    && ((not (truthy owner) || str_eq r.repository_owner (or_blank owner))
        && (not active_only || r.is_active))

-- The rows that `list_tokens` shows, with all but their tokens.
unfoldable pub list_tokens : String → Option String → Bool → List GitHubToken → List GitHubToken
list_tokens user owner active_only s = keep (is_shown user owner active_only) s
