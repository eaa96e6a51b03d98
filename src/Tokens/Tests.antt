-- ===== src/Tokens/Tests.antt =====
-- Concrete connections for app/services/oauth/token_manager.py.
use devflowfix.Base.{
  behind, ◌≡◌, refl, false, ◌&&◌, none, some, List, [], ◌∷◌, String, str_eq, join,
}
use devflowfix.Tokens.{
  TokenManager, encrypt_token, decrypt_token, Connection, Grant, Draws, connected,
  store_oauth_connection, get_oauth_connection,
}
use devflowfix.Tokens.Storage.{IsLawful, Holds, get-store}
use devflowfix.Tokens.Connections.{Call, stores, gets, revokes}

-- A cipher that puts a mark before each text.
abbrev pub marking : TokenManager
marking = some (record { encrypt = λ nonce t. join "#" t; decrypt = behind "#" })

pub marking-IsLawful : IsLawful marking
unfolding encrypt_token decrypt_token join behind
marking-IsLawful nonce t = refl

abbrev granted : Grant
granted = record {
  user_id = "ann";
  provider = "github";
  provider_user_id = "17";
  provider_username = "ann17";
  access_token = "secret";
  refresh_token = none;
  scopes = "repo" ∷ [];
  expires_at = none;
}

abbrev drawn : Draws
drawn = record { nonce = 4; second_nonce = 5; id = "oac_1"; now = 10; later = 11 }

abbrev stored : List Connection
stored = connected marking drawn granted ∷ []

get-store_example :
    let t = (store_oauth_connection marking drawn granted stored).0 in
    ((c : Connection) × ((get_oauth_connection 12 "ann" "github" t).1 ≡ some c)
      × Holds marking granted c)
    × ((u p : String)
        → (str_eq "ann" u && str_eq "github" p) ≡ false
        → (get_oauth_connection 12 u p t).1 ≡ (get_oauth_connection 12 u p stored).1)
get-store_example = get-store marking drawn granted stored 12 marking-IsLawful

abbrev calls : List Call
calls =
    stores marking drawn granted
    ∷ revokes 20 "oac_1" "ann"
    ∷ gets 21 "ann" "github"
    ∷ stores marking drawn granted
    ∷ []
