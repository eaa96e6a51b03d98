-- ===== src/GitHubTokens/Retired.antt =====
-- app/services/github_token_manager.py: tokens that were deactivated.
use devflowfix.Base.{
  ℕ, ◌≤◌, ◌≡◌, refl, ap, ◌∙◌, true, false, Option, none, some, List, [], ◌∷◌, String, find, count,
  count-change, count-has_keys-append, find-gone, keep, eq_iff, Option-cases, arith,
}
use devflowfix.GitHubTokens.{
  GitHubToken, Registration, Draws, GitHubTokenManager, organization, full_name, is_for, is_usable,
  is_token, renewed, registered, retired, used, register_found, register_token, take_token,
  get_token, deactivate_found, deactivate_token,
}
use devflowfix.GitHubTokens.Lookup.{usable_for}

pub data Call : Type 0 where
  registers : GitHubTokenManager → Draws → Registration → Call
  gets : GitHubTokenManager → (now : ℕ) (user owner : String) (repo : Option String) → Call
  deactivates : (id : String) (user : Option String) → Call

unfoldable pub perform : Call → List GitHubToken → List GitHubToken
perform (registers m d g) s = register_token m d g s
perform (gets m now user owner repo) s = (get_token m now user owner repo s).0
perform (deactivates id user) s = (deactivate_token id user s).0

unfoldable pub run : List Call → List GitHubToken → List GitHubToken
run [] s = s
run (c ∷ cs) s = run cs (perform c s)

-- No user has two tokens of one full name.
abbrev pub AreDistinct : List GitHubToken → Type 0
AreDistinct s = (user full : String) → count (is_for user full) s ≤ 1

register_found-AreDistinct :
    (m : GitHubTokenManager) (d : Draws) (g : Registration) (o : Option GitHubToken)
    (s : List GitHubToken)
    → find (is_for g.user_id (full_name g.owner g.repo)) s ≡ o
    → AreDistinct s
    → AreDistinct (register_found m d g o s)
unfolding registered renewed
register_found-AreDistinct m d g none s e h user full =
    count-has_keys-append (λ r. r.user_id) (λ r. r.repository_full) s (registered m d g) user full e
      (h user full)
register_found-AreDistinct m d g (some r) s e h user full =
    let same =
      count-change (is_for g.user_id (full_name g.owner g.repo)) (is_for user full) (renewed m d g)
        s (λ y. refl) in
    omega (arith, same, h user full)

take_token-AreDistinct :
    (m : GitHubTokenManager) (now : ℕ) (user full : String) (s : List GitHubToken)
    → AreDistinct s
    → AreDistinct (take_token m now user full s).0
unfolding take_token used
take_token-AreDistinct m now user full s h u f =
    let same = count-change (is_usable user full) (is_for u f) (used now) s (λ y. refl) in
    ground (arith, same, h u f, Option-cases (find (is_usable user full) s))

perform-AreDistinct : (c : Call) (s : List GitHubToken) → AreDistinct s → AreDistinct (perform c s)
unfolding perform register_token get_token deactivate_token retired
perform-AreDistinct (registers m d g) s h u f =
    register_found-AreDistinct m d g (find (is_for g.user_id (full_name g.owner g.repo)) s) s refl h
      u f
perform-AreDistinct (gets m now user owner repo) s h u f = ground (
  arith,
  take_token-AreDistinct m now user (full_name owner repo) s h u f,
  take_token-AreDistinct m now user (organization owner) s h u f,
)
perform-AreDistinct (deactivates id user) s h u f =
    let same = count-change (is_token id user) (is_for u f) retired s (λ y. refl) in
    ground (arith, same, h u f, Option-cases (find (is_token id user) s))

run-distinct : (cs : List Call) (s : List GitHubToken) → AreDistinct s → AreDistinct (run cs s)
unfolding run
run-distinct [] s h = h
run-distinct (c ∷ cs) s h = run-distinct cs (perform c s) (perform-AreDistinct c s h)

deactivate_found-gone :
    (id : String) (user : Option String) (r : GitHubToken) (o : Option GitHubToken)
    (s : List GitHubToken)
    → AreDistinct s
    → find (is_token id user) s ≡ some r
    → o ≡ some r
    → (find (is_usable r.user_id r.repository_full) (deactivate_found id user o s).0 ≡ none)
      × ((deactivate_found id user o s).1 ≡ true)
unfolding retired
deactivate_found-gone id user r none s h e f = absurd (ground (arith, f))
deactivate_found-gone id user r (some q) s h e f = (
  find-gone (is_token id user) (is_for r.user_id r.repository_full)
      (is_usable r.user_id r.repository_full) retired s r e
      (ground (arith, eq_iff r.user_id r.user_id, eq_iff r.repository_full r.repository_full))
      (ground arith) (usable_for r.user_id r.repository_full) (h r.user_id r.repository_full),
  refl,
)

-- After any row of calls on an empty table and for every token in it: once it is deactivated its
-- user is given no token of that repository any more, and where one is asked for, the organization's
-- is looked for instead. An identifier that is not there, or not the given user's, changes nothing.
pub deactivate-get :
    (cs : List Call) (id : String) (user : Option String)
    → let s = run cs [] in
      let a = deactivate_token id user s in
      ((r : GitHubToken)
        → find (is_token id user) s ≡ some r
        → (a.1 ≡ true)
          × (find (is_usable r.user_id r.repository_full) a.0 ≡ none)
          × ((m : GitHubTokenManager) (now : ℕ) (owner : String) (repo : Option String)
              → full_name owner repo ≡ r.repository_full
              → get_token m now r.user_id owner repo a.0
                ≡ take_token m now r.user_id (organization owner) a.0))
      × (find (is_token id user) s ≡ none → a ≡ (s, false))
unfolding deactivate_token get_token count keep
deactivate-get cs id user =
    let s = run cs [] in
    let h = run-distinct cs [] (λ u f. omega arith) in
    (
      λ r e.
          let (gone, done) = deactivate_found-gone id user r (find (is_token id user) s) s h e e in
          (
            done,
            gone,
            λ m now owner repo n.
                let none_left =
                  ap
                    (λ f.
                      find (is_usable r.user_id f)
                        (deactivate_found id user (find (is_token id user) s) s).0)
                    n
                  ∙ gone in
                ground (arith, none_left),
          ),
      λ e. rw e refl,
    )
