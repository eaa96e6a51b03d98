-- ===== src/Edits/Applied.antt =====
-- app/services/pr_creator.py: which files the changes of a pull request touch, and which it reports.
use devflowfix.Base.{
  ◌≡◌, refl, ◌∙◌, Bool, true, false, ◌||◌, Option, none, some, List, [], ◌∷◌, String, any, str_eq,
  eq_iff, Option-cases, Bool-cases, inl, inr, arith,
}
use devflowfix.Edits.{Number, Change}
use devflowfix.Edits.Writes.{
  Contents, ConfigChange, config_content, new_text, write_text, listed, config_change, change_file,
  line_number_of, apply_code_changes, apply_config_changes, sha_of,
}

abbrev is_path : Option String → String → Bool
is_path none p = false
is_path (some path) p = str_eq path p

-- Whether a change names the file.
unfoldable pub named : String → List Change → Bool
named p [] = false
named p (c ∷ cs) = is_path c.file_path p || named p cs

unfoldable pub configured : String → List ConfigChange → Bool
configured p [] = false
configured p (c ∷ cs) = is_path c.file p || configured p cs

reported :
    (path : Option String) (paths : List String) (p : String)
    → any (str_eq p) (listed path paths) ≡ true
    → (is_path path p || any (str_eq p) paths) ≡ true
unfolding any
reported none paths p h = h
reported (some q) paths p h = ground (arith, h, eq_iff p q, eq_iff q p)

module _ {ℓ} {R : Type ℓ} (api : Contents R) where
  open api use {read, write}

  -- One write: its file alone may change, and nothing else is reported.
  record Touches (path : Option String) (r : R) (a : R × Option String) : Type ℓ where
    others : (p : String) → is_path path p ≡ false → read p a.0 ≡ read p r
    report : (p : String) → is_path a.1 p ≡ true → is_path path p ≡ true

  nothing_touched : (path : Option String) (r : R) → Touches path r (r, none)
  nothing_touched path r = record { others = λ p n. refl; report = λ p e. cc }

  write_text-Touches :
      (path : String) (r : R) (t : String × Option String)
      → Touches (some path) r (write_text api path r t)
  write_text-Touches path r (content, sha) = elim (Option-cases (write path content sha r)) [
    | inl e ↦ rw e (nothing_touched (some path) r)
    | inr (r', e) ↦
        rw e
          (record { others = λ p n. api.read-other path p content sha r r' e n; report = λ p h. h })
  ]

  config_change-Touches :
      (c : ConfigChange) (path : Option String) (r : R)
      → Touches path r (config_change api c path r)
  config_change-Touches c none r = nothing_touched none r
  config_change-Touches c (some path) r = elim (Bool-cases (str_eq path "")) [
    | inl e ↦ rw e (nothing_touched (some path) r)
    | inr e ↦ rw e (write_text-Touches path r (config_content c, sha_of api (read path r)))
  ]

  apply_config_changes-frame :
      (cs : List ConfigChange) (r : R) (p : String)
      → (configured p cs ≡ false → read p (apply_config_changes api cs r).0 ≡ read p r)
        × (any (str_eq p) (apply_config_changes api cs r).1 ≡ true → configured p cs ≡ true)
  unfolding apply_config_changes configured any
  apply_config_changes-frame [] r p = (λ h. refl, λ h. h)
  apply_config_changes-frame (c ∷ cs) r p =
      let t = config_change-Touches c c.file r in
      let (same, told) = apply_config_changes-frame cs (config_change api c c.file r).0 p in
      (
        λ h. same (ground (arith, h)) ∙ t.others p (ground (arith, h)),
        λ h. ground (arith, reported (config_change api c c.file r).1 _ p h, told, t.report p),
      )

  module _ (int_of : String → Option Number) where
    change_file-Touches :
        (c : Change) (path fixed : Option String) (r : R)
        → Touches path r (change_file api int_of c path fixed r)
    change_file-Touches c none fixed r = nothing_touched none r
    change_file-Touches c (some path) none r = nothing_touched (some path) r
    change_file-Touches c (some path) (some fixed) r = elim (Bool-cases (str_eq path "")) [
      | inl e ↦ rw e (nothing_touched (some path) r)
      | inr e ↦ rw e (
          write_text-Touches path r (
            new_text api fixed c.current_code (line_number_of api int_of c.line_number)
              (read path r)))
    ]

    pub apply_code_changes-frame :
        (cs : List Change) (r : R) (p : String)
        → (named p cs ≡ false → read p (apply_code_changes api int_of cs r).0 ≡ read p r)
          × (any (str_eq p) (apply_code_changes api int_of cs r).1 ≡ true → named p cs ≡ true)
    unfolding apply_code_changes named any
    apply_code_changes-frame [] r p = (λ h. refl, λ h. h)
    apply_code_changes-frame (c ∷ cs) r p =
        let a = change_file api int_of c c.file_path c.fixed_code r in
        let t = change_file-Touches c c.file_path c.fixed_code r in
        let (same, told) = apply_code_changes-frame cs a.0 p in
        (
          λ h. same (ground (arith, h)) ∙ t.others p (ground (arith, h)),
          λ h. ground (arith, reported a.1 _ p h, told, t.report p),
        )

    -- The changes of code and then of configuration leave every file alone that no change names,
    -- whatever GitHub accepts and refuses, and report only files that a change names.
    pub changes-frame :
        (cs : List Change) (ds : List ConfigChange) (r : R) (p : String)
        → let a = apply_code_changes api int_of cs r in
          let b = apply_config_changes api ds a.0 in
          (named p cs ≡ false → configured p ds ≡ false → read p b.0 ≡ read p r)
          × (any (str_eq p) a.1 ≡ true → named p cs ≡ true)
          × (any (str_eq p) b.1 ≡ true → configured p ds ≡ true)
    changes-frame cs ds r p =
        let a = apply_code_changes api int_of cs r in
        let (same, told) = apply_code_changes-frame cs r p in
        let (same', told') = apply_config_changes-frame ds a.0 p in
        (λ h k. same' k ∙ same h, told, told')
