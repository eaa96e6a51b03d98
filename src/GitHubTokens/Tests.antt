-- ===== src/GitHubTokens/Tests.antt =====
-- Concrete tokens for app/services/github_token_manager.py.
use devflowfix.Base.{
  ℕ, ◌≡◌, true, false, not, is_some, ◌&&◌, ◌||◌, Option, none, some, List, [], ◌∷◌, String, find,
  truthy, str_eq,
}
use devflowfix.Tokens.Tests.{marking, marking-IsLawful}
use devflowfix.GitHubTokens.{
  GitHubToken, Registration, Draws, GitHubTokenManager, organization, full_name, is_usable,
  is_token, register_token, take_token, get_token, deactivate_token,
}
use devflowfix.GitHubTokens.Lookup.{get-register}
use devflowfix.GitHubTokens.Retired.{Call, registers, gets, run, deactivate-get}

abbrev for_acme : Registration
for_acme = record {
  user_id = "ann";
  owner = "acme";
  repo = none;
  token = "ghp_1";
  description = "";
  scopes = [];
  created_by = "system";
}

abbrev drawn : Draws
drawn = record { nonce = 1; id = "t1"; now = 5; later = 6 }

get-register_example :
    let t = register_token marking drawn for_acme [] in
    ((get_token marking 7 "ann" "acme" none t).1 ≡ some "ghp_1")
    × ((repo : Option String)
        → truthy none ≡ false
        → find (is_usable "ann" (full_name "acme" repo)) t ≡ none
        → (get_token marking 7 "ann" "acme" repo t).1 ≡ some "ghp_1")
    × ((user owner : String) (repo : Option String)
        → (str_eq "ann" user
            && (str_eq (organization "acme") (full_name owner repo)
                || (str_eq (organization "acme") (organization owner)
                    && not (
                        truthy repo && is_some (find (is_usable user (full_name owner repo)) [])))))
          ≡ false
        → (get_token marking 7 user owner repo t).1 ≡ (get_token marking 7 user owner repo []).1)
get-register_example = get-register marking drawn for_acme [] 7 marking-IsLawful

abbrev calls : List Call
calls = registers marking drawn for_acme ∷ gets marking 8 "ann" "acme" (some "billing") ∷ []

deactivate-get_example :
    let s = run calls [] in
    let a = deactivate_token "t1" (some "ann") s in
    ((r : GitHubToken)
      → find (is_token "t1" (some "ann")) s ≡ some r
      → (a.1 ≡ true)
        × (find (is_usable r.user_id r.repository_full) a.0 ≡ none)
        × ((m : GitHubTokenManager) (now : ℕ) (owner : String) (repo : Option String)
            → full_name owner repo ≡ r.repository_full
            → get_token m now r.user_id owner repo a.0
              ≡ take_token m now r.user_id (organization owner) a.0))
    × (find (is_token "t1" (some "ann")) s ≡ none → a ≡ (s, false))
deactivate-get_example = deactivate-get calls "t1" (some "ann")
