-- ===== src/Edits/Tests.antt =====
-- Concrete edits for app/services/pr_creator.py.
use devflowfix.Base.{
  ◌≡◌, ◌≢◌, refl, true, false, Option, none, some, [], ◌∷◌, String, Dict, lookup, insert,
  lookup-insert, contains, behind, replace, strip, strip_left, strip_right, any, str_eq, eq_iff,
  arith,
}
use devflowfix.Edits.{Number, pos, missing, Change, break_text, as_line, appended, updated_content}
use devflowfix.Edits.Writes.{
  File, Contents, new_text, line_number_of, apply_code_changes, apply_config_changes,
}
use devflowfix.Edits.Lines.{updated_content-unbroken, updated_content-exact}
use devflowfix.Edits.Applied.{named, configured, changes-frame}
use devflowfix.Edits.Once.{apply_code_changes-once}

-- A repository that refuses to overwrite a file without its hash.
abbrev as_file : Option String → Option File
as_file none = none
as_file (some s) = some (record { content = some s; sha = "1" })

abbrev read_file : String → Dict String → Option File
read_file path r = as_file (lookup path r)

abbrev write_over :
    String → String → Option String → Dict String → Option String → Option (Dict String)
write_over path s none r (some old) = none
write_over path s none r none = some (insert path s r)
write_over path s (some sha) r old = some (insert path s r)

abbrev write_file : String → String → Option String → Dict String → Option (Dict String)
write_file path s sha r = write_over path s sha r (lookup path r)

write_over-insert :
    (path s : String) (sha : Option String) (r r' : Dict String) (old : Option String)
    → write_over path s sha r old ≡ some r'
    → r' ≡ insert path s r
write_over-insert path s none r r' (some old) e = cc
write_over-insert path s none r r' none e = ground (arith, e)
write_over-insert path s (some sha) r r' old e = ground (arith, e)

read-write_lem :
    (path s : String) (sha : Option String) (r r' : Dict String)
    → write_file path s sha r ≡ some r'
    → (f : File) × (read_file path r' ≡ some f) × (f.content ≡ some s)
read-write_lem path s sha r r' e =
    let i = write_over-insert path s sha r r' (lookup path r) e in
    (
      record { content = some s; sha = "1" },
      rw i (ground (arith, lookup-insert path path s r, eq_iff path path)),
      refl,
    )

read-other_lem :
    (path other s : String) (sha : Option String) (r r' : Dict String)
    → write_file path s sha r ≡ some r'
    → str_eq path other ≡ false
    → read_file other r' ≡ read_file other r
read-other_lem path other s sha r r' e n =
    let i = write_over-insert path s sha r r' (lookup path r) e in
    rw i (ground (arith, lookup-insert path other s r, n))

abbrev repository : Contents (Dict String)
repository = record {
  read = read_file;
  write = write_file;
  read-write = read-write_lem;
  read-other = read-other_lem;
}

abbrev no_number : String → Option Number
no_number s = none

abbrev fix : Change
fix = record {
  file_path = some "a.py";
  fixed_code = some "x = 2";
  current_code = none;
  line_number = missing;
}

abbrev files : Dict String
files = ("a.py", "x = 1") ∷ ("b.py", "y = 1") ∷ []

one_line : contains break_text "x = 1\ny = 1" ≡ false
unfolding contains behind
one_line = refl

updated_content-unbroken_example :
    (updated_content "x = 1\ny = 1" "x = 2" none (some (pos 1)) ≡ as_line "x = 2")
    × ((n : Number)
        → n ≢ pos 1
        → updated_content "x = 1\ny = 1" "x = 2" none (some n) ≡ appended "x = 1\ny = 1" "x = 2")
updated_content-unbroken_example = updated_content-unbroken "x = 1\ny = 1" "x = 2" one_line

stripped_there : contains (strip " x ") "y = x" ≡ true
unfolding contains behind strip_left strip_right
stripped_there = refl

updated_content-exact_example :
    (updated_content "y = x" "z" (some " x ") none ≡ replace " x " "z" "y = x")
    × (contains " x " "y = x" ≡ false → updated_content "y = x" "z" (some " x ") none ≡ "y = x")
updated_content-exact_example = updated_content-exact "y = x" "z" " x " none refl stripped_there

changes-frame_example :
    let a = apply_code_changes repository no_number (fix ∷ []) files in
    let b = apply_config_changes repository [] a.0 in
    (named "b.py" (fix ∷ []) ≡ false
      → configured "b.py" [] ≡ false
      → read_file "b.py" b.0 ≡ read_file "b.py" files)
    × (any (str_eq "b.py") a.1 ≡ true → named "b.py" (fix ∷ []) ≡ true)
    × (any (str_eq "b.py") b.1 ≡ true → configured "b.py" [] ≡ true)
changes-frame_example = changes-frame repository no_number (fix ∷ []) [] files "b.py"

abbrev readme : Change
readme = record fix { file_path = some "README.md" }

apply_code_changes-once_example :
    let before = (apply_code_changes repository no_number (readme ∷ []) files).0 in
    let n = line_number_of repository no_number fix.line_number in
    let t = new_text repository "x = 2" none n (read_file "a.py" files) in
    let a = apply_code_changes repository no_number (readme ∷ fix ∷ readme ∷ []) files in
    (write_file "a.py" t.0 t.1 before ≡ none
      → (read_file "a.py" a.0 ≡ read_file "a.py" files) × (any (str_eq "a.py") a.1 ≡ false))
    × ((r' : Dict String)
        → write_file "a.py" t.0 t.1 before ≡ some r'
        → ((f : File) × (read_file "a.py" a.0 ≡ some f) × (f.content ≡ some t.0))
          × (any (str_eq "a.py") a.1 ≡ true))
unfolding named
apply_code_changes-once_example =
    apply_code_changes-once repository no_number (readme ∷ []) (readme ∷ []) fix "a.py" "x = 2"
      files refl refl refl refl refl
