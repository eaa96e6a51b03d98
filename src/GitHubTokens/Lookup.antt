-- ===== src/GitHubTokens/Lookup.antt =====
-- app/services/github_token_manager.py: which token is found, and for whom.
use devflowfix.Base.{
  ℕ, ◌≡◌, refl, ◌∙◌, true, false, ◌&&◌, ◌||◌, Option, none, some, is_some, List, String, find,
  find-change, find-last, find-unchanged, find-append-none, find-passes, Option-cases, Bool-cases,
  not, sym, truthy, str_eq, eq_iff, inl, inr, if◌then◌else◌, arith,
}
use devflowfix.Tokens.{encrypt_token}
use devflowfix.Tokens.Storage.{IsLawful}
use devflowfix.GitHubTokens.{
  GitHubToken, Registration, Draws, GitHubTokenManager, organization, full_name, is_for, is_usable,
  decrypt_or_keep, renewed, registered, register_found, register_token, take_token, get_token,
}

pub usable_for :
    (user full : String) (r : GitHubToken)
    → is_usable user full r ≡ true
    → is_for user full r ≡ true
usable_for user full r h = ground (arith, h)

-- The row that holds the token of a registration.
record Holds (m : GitHubTokenManager) (d : Draws) (g : Registration) (s : List GitHubToken)
    : Type 0 where
  row : GitHubToken
  found : find (is_usable g.user_id (full_name g.owner g.repo)) s ≡ some row
  stored : row.token ≡ encrypt_token m d.nonce g.token

register_found-Holds :
    (m : GitHubTokenManager) (d : Draws) (g : Registration) (o : Option GitHubToken)
    (s : List GitHubToken)
    → find (is_for g.user_id (full_name g.owner g.repo)) s ≡ o
    → Holds m d g (register_found m d g o s)
unfolding renewed registered
register_found-Holds m d g none s e =
    let full = full_name g.owner g.repo in
    record {
      row = registered m d g;
      found =
          find-last (is_for g.user_id full) (is_usable g.user_id full) s (registered m d g) e
            (usable_for g.user_id full)
            (ground (arith, eq_iff g.user_id g.user_id, eq_iff full full));
      stored = refl;
    }
register_found-Holds m d g (some r) s e =
    let full = full_name g.owner g.repo in
    let passed = find-passes (is_for g.user_id full) s r e in
    record {
      row = renewed m d g r;
      found =
          find-change (is_for g.user_id full) (is_usable g.user_id full) (renewed m d g) s r e
            (usable_for g.user_id full) (ground (arith, passed));
      stored = refl;
    }

another :
    (g : Registration) (user full : String) (y : GitHubToken)
    → (str_eq g.user_id user && str_eq (full_name g.owner g.repo) full) ≡ false
    → is_for g.user_id (full_name g.owner g.repo) y ≡ true
    → is_for user full y ≡ false
another g user full y n h =
    let own = full_name g.owner g.repo in
    let p : y.user_id ≡ g.user_id = ground (arith, h, eq_iff y.user_id g.user_id) in
    let q : y.repository_full ≡ own = ground (arith, h, eq_iff y.repository_full own) in rw (p, q) n

register_found-other :
    (m : GitHubTokenManager) (d : Draws) (g : Registration) (o : Option GitHubToken)
    (s : List GitHubToken) (user full : String)
    → (str_eq g.user_id user && str_eq (full_name g.owner g.repo) full) ≡ false
    → find (is_usable user full) (register_found m d g o s) ≡ find (is_usable user full) s
unfolding renewed registered
register_found-other m d g none s user full n =
    find-append-none (is_usable user full) s (registered m d g) (ground (arith, n))
register_found-other m d g (some r) s user full n =
    let own = full_name g.owner g.repo in
    find-unchanged (is_for g.user_id own) (is_usable user full) (renewed m d g) s
      (λ y h. ground (arith, another g user full y n h))
      (λ y h. ground (arith, another g user full y n h))

-- What is returned is a matter of what is found.
abbrev answer : GitHubTokenManager → Option GitHubToken → Option String
answer m none = none
answer m (some r) = some (decrypt_or_keep m r.token)

take_token-answer :
    (m : GitHubTokenManager) (now : ℕ) (user full : String) (s : List GitHubToken)
    → (take_token m now user full s).1 ≡ answer m (find (is_usable user full) s)
unfolding take_token
take_token-answer m now user full s = elim (Option-cases (find (is_usable user full) s)) [
  | inl e ↦ rw e refl
  | inr (r, e) ↦ rw e refl
]

get_token-answer :
    (m : GitHubTokenManager) (now : ℕ) (user owner : String) (repo : Option String)
    (s : List GitHubToken)
    → (get_token m now user owner repo s).1 ≡ (
        if truthy repo && is_some (find (is_usable user (full_name owner repo)) s)
        then answer m (find (is_usable user (full_name owner repo)) s)
        else answer m (find (is_usable user (organization owner)) s))
unfolding get_token
get_token-answer m now user owner repo s = ground (
  arith,
  take_token-answer m now user (full_name owner repo) s,
  take_token-answer m now user (organization owner) s,
)

token_back :
    (m : GitHubTokenManager) (d : Draws) (g : Registration) (r : GitHubToken)
    → IsLawful m
    → r.token ≡ encrypt_token m d.nonce g.token
    → decrypt_or_keep m r.token ≡ g.token
unfolding decrypt_or_keep
token_back m d g r l e = rw (e, l d.nonce g.token) refl

-- With a cipher that gives back what it encrypted, or without one: whatever was registered before,
-- also a token that was deactivated, a token that is registered is the one found for its user and
-- repository; one for an organization is also found for each repository of it, as it is named, that
-- has no usable token of its own; and what is found is the same as before for other users, and for the
-- same user in each repository that does not have the full name of the registration itself and, where
-- its organization has it, had a usable token of its own.
pub get-register :
    (m : GitHubTokenManager) (d : Draws) (g : Registration) (s : List GitHubToken) (now : ℕ)
    → IsLawful m
    → let t = register_token m d g s in
      let full = full_name g.owner g.repo in
      ((get_token m now g.user_id g.owner g.repo t).1 ≡ some g.token)
      × ((repo : Option String)
          → truthy g.repo ≡ false
          → find (is_usable g.user_id (full_name g.owner repo)) t ≡ none
          → (get_token m now g.user_id g.owner repo t).1 ≡ some g.token)
      × ((user owner : String) (repo : Option String)
          → (str_eq g.user_id user
              && (str_eq full (full_name owner repo)
                  || (str_eq full (organization owner)
                      && not (
                          truthy repo
                          && is_some (find (is_usable user (full_name owner repo)) s)))))
            ≡ false
          → (get_token m now user owner repo t).1 ≡ (get_token m now user owner repo s).1)
unfolding register_token
get-register m d g s now l =
    let full = full_name g.owner g.repo in
    let o = find (is_for g.user_id full) s in
    let t = register_found m d g o s in
    let h = register_found-Holds m d g o s refl in
    let back = token_back m d g h.row l h.stored in
    (
      ground (arith, get_token-answer m now g.user_id g.owner g.repo t, h.found, back),
      λ repo n e.
          ground (arith, get_token-answer m now g.user_id g.owner repo t, h.found, back, n, e),
      λ user owner repo n.
          let whole =
            register_found-other m d g o s user (full_name owner repo) (ground (arith, n)) in
          let before = get_token-answer m now user owner repo s in
          let after = get_token-answer m now user owner repo t in
          elim (Bool-cases (str_eq g.user_id user && str_eq full (organization owner))) [
            | inl k ↦
                let own : (truthy repo && is_some (find (is_usable user (full_name owner repo)) s))
                    ≡ true =
                  ground (arith, n, k) in
                after ∙ rw (whole, own) (sym (before ∙ rw own refl))
            | inr k ↦
                let org = register_found-other m d g o s user (organization owner) k in
                after ∙ rw (whole, org) (sym before)
          ],
    )
