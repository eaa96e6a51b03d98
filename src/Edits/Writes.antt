-- ===== src/Edits/Writes.antt =====
-- app/services/pr_creator.py: how the changes of a pull request are written. GitHub, with the client
-- that asks it, is `Contents`: a file is read with its text, where it can be decoded, and its `sha`.
use devflowfix.Base.{
  zero, suc, ◌≡◌, false, Option, none, some, List, [], ◌∷◌, String, join, str_eq, if◌then◌else◌,
}
use devflowfix.Edits.{
  Number, pos, negative, RawNumber, missing, number, text, Change, updated_content,
}

pub record File : Type 0 where
  pub content : Option String
  pub sha : String

-- GitHub's contents of one branch. A write gives the file its text and leaves other files alone.
pub record Contents {ℓ} (R : Type ℓ) : Type ℓ where
  pub read : String → R → Option File
  pub write : String → String → Option String → R → Option R
  pub read-write :
      (path content : String) (sha : Option String) (r r' : R)
      → write path content sha r ≡ some r'
      → (f : File) × (read path r' ≡ some f) × (f.content ≡ some content)
  pub read-other :
      (path other content : String) (sha : Option String) (r r' : R)
      → write path content sha r ≡ some r'
      → str_eq path other ≡ false
      → read other r' ≡ read other r

pub record ConfigChange : Type 0 where
  pub file : Option String
  pub setting : Option String
  pub recommended_value : Option String
  pub value : Option String

abbrev or_text : Option String → String → String
or_text none d = d
or_text (some s) d = s

-- Without a recommended value the value, and without one nothing; the line ends in a line break.
abbrev pub config_content : ConfigChange → String
config_content c =
    join (or_text c.setting "config")
      (join ": " (join (or_text c.recommended_value (or_text c.value "")) "\n"))

abbrev pub listed : Option String → List String → List String
listed none paths = paths
listed (some path) paths = path ∷ paths

module _ {ℓ} {R : Type ℓ} (api : Contents R) where
  open api use {read, write}

  -- The text to write and the `sha` to write it over: of a file that cannot be read or decoded
  -- neither is known.
  abbrev pub new_text :
      String → Option String → Option Number → Option File → String × Option String
  new_text fixed_code current_code n none = (fixed_code, none)
  new_text fixed_code current_code n (some f) = elim f.content [
    | none ↦ (fixed_code, none)
    | some content ↦ (updated_content content fixed_code current_code n, some f.sha)
  ]

  -- The path is reported where GitHub accepted the write.
  abbrev pub written : String → R → Option R → R × Option String
  written path r none = (r, none)
  written path r (some r') = (r', some path)

  abbrev pub write_text : String → R → String × Option String → R × Option String
  write_text path r (content, sha) = written path r (write path content sha r)

  abbrev pub sha_of : Option File → Option String
  sha_of none = none
  sha_of (some f) = some f.sha

  abbrev pub config_change : ConfigChange → Option String → R → R × Option String
  config_change c none r = (r, none)
  config_change c (some path) r =
      if str_eq path ""
      then (r, none)
      else write_text path r (config_content c, sha_of (read path r))

  unfoldable pub apply_config_changes : List ConfigChange → R → R × List String
  apply_config_changes [] r = (r, [])
  apply_config_changes (c ∷ cs) r =
      let (r₁, path) = config_change c c.file r in
      let (r₂, paths) = apply_config_changes cs r₁ in (r₂, listed path paths)

  module _ (int_of : String → Option Number) where
    -- A missing number, 0 and an empty text are no line number; a text is read as Python does.
    abbrev pub line_number_of : RawNumber → Option Number
    line_number_of missing = none
    line_number_of (number negative) = some negative
    line_number_of (number (pos zero)) = none
    line_number_of (number (pos (suc n))) = some (pos (suc n))
    line_number_of (text s) = if str_eq s "" then none else int_of s

    abbrev pub change_file : Change → Option String → Option String → R → R × Option String
    change_file c none fixed_code r = (r, none)
    change_file c (some path) none r = (r, none)
    change_file c (some path) (some fixed_code) r =
        if str_eq path ""
        then (r, none)
        else write_text path r
            (new_text fixed_code c.current_code (line_number_of c.line_number) (read path r))

    unfoldable pub apply_code_changes : List Change → R → R × List String
    apply_code_changes [] r = (r, [])
    apply_code_changes (c ∷ cs) r =
        let (r₁, path) = change_file c c.file_path c.fixed_code r in
        let (r₂, paths) = apply_code_changes cs r₁ in (r₂, listed path paths)
