-- ===== src/Edits.antt =====
-- app/services/pr_creator.py: the edits of the files of a pull request. A text "\\n" below is the two
-- characters backslash and n, as in the code's literals.
pub mod Writes
pub mod Lines
pub mod Applied
pub mod Once
mod Tests
use Prim.Native.Char.{code}
use devflowfix.Base.{
  join_all, ℕ, zero, suc, ◌+◌, ◌-◌, Bool, true, false, not, ◌&&◌, ◌||◌, Option, none, some, is_some,
  List, [], ◌∷◌, ◌++◌, String, behind, contains, join, replace, size, strip, truthy, length, str_eq,
  ltb, leb, ◌==◌, if◌then◌else◌,
}

-- What may stand as a line number: a number, or a text. A number is positive, zero or negative.
pub data Number : Type 0 where
  pos : ℕ → Number
  negative : Number

pub data RawNumber : Type 0 where
  missing : RawNumber
  number : Number → RawNumber
  text : String → RawNumber

pub record Change : Type 0 where
  pub file_path : Option String
  pub fixed_code : Option String
  pub current_code : Option String
  pub line_number : RawNumber

-- text.split(sep), of a separator that is not empty; `k` characters of it are still to be skipped.
abbrev pub cons_first : String → List String → List String
cons_first c [] = c ∷ []
cons_first c (line ∷ lines) = join c line ∷ lines

unfoldable pub splitting : String → ℕ → String → List String
splitting sep k String.[] = String.[] ∷ []
splitting sep (suc k) (String.◌∷◌ c s) = splitting sep k s
splitting sep zero (String.◌∷◌ c s) =
    let found = splitting sep (size sep - 1) s in
    let on = splitting sep zero s in
    if is_some (behind sep (String.◌∷◌ c s))
    then String.[] ∷ found
    else cons_first (String.◌∷◌ c String.[]) on

-- "\\n" in the code
abbrev pub break_text : String
break_text = "\\n"

unfoldable pub split_lines : String → List String
unfolding splitting
split_lines s = splitting break_text zero s

abbrev pub join_lines : List String → String
join_lines lines = join_all break_text lines

-- re.sub(r'\\s+', ' ', text): the pattern is a backslash and one or more letters s.
abbrev starts_s : String → Bool
starts_s String.[] = false
starts_s (String.◌∷◌ c s) = code c == b's'

unfoldable pub squeeze : Bool → String → String
squeeze in_run String.[] = String.[]
squeeze in_run (String.◌∷◌ c s) =
    let run = squeeze true s in
    let plain = squeeze false s in
    if in_run && code c == b's'
    then run
    else if code c == 92 && starts_s s
    then String.◌∷◌ " " run
    else String.◌∷◌ c plain

abbrev pub normalized : String → String
normalized s = squeeze false (strip s)

-- text.endswith("\\n")
unfoldable pub ends_with : String → String → Bool
ends_with p String.[] = str_eq p ""
ends_with p (String.◌∷◌ c s) = str_eq p (String.◌∷◌ c s) || ends_with p s

-- text.rstrip("\\n"): every backslash and letter n at the end goes.
unfoldable pub rstrip : String → String
rstrip String.[] = String.[]
rstrip (String.◌∷◌ c s) =
    let rest = rstrip s in
    if (code c == 92 || code c == b'n') && str_eq rest "" then String.[] else String.◌∷◌ c rest

abbrev pub as_line : String → String
as_line fixed_code = if ends_with break_text fixed_code then rstrip fixed_code else fixed_code

-- lines[i] = line and del lines[i], where the index is there.
unfoldable pub set_at : ℕ → String → List String → List String
set_at i line [] = []
set_at zero line (x ∷ xs) = line ∷ xs
set_at (suc i) line (x ∷ xs) = x ∷ set_at i line xs

unfoldable pub delete_at : ℕ → List String → List String
delete_at i [] = []
delete_at zero (x ∷ xs) = xs
delete_at (suc i) (x ∷ xs) = x ∷ delete_at i xs

-- The first line that fits is replaced, where there is one.
abbrev pub fits : String → String → Bool
fits normalized_current line =
    contains normalized_current (normalized line) || contains (normalized line) normalized_current

abbrev pub after_line : String → Option (List String) → Option (List String)
after_line line none = none
after_line line (some lines) = some (line ∷ lines)

unfoldable pub replace_fitting : String → String → List String → Option (List String)
replace_fitting normalized_current line [] = none
replace_fitting normalized_current line (x ∷ xs) =
    let rest = replace_fitting normalized_current line xs in
    if fits normalized_current x then some (line ∷ xs) else after_line x rest

-- 0 < line_number <= len(lines), as an index
abbrev pub index_of : Number → List String → Option ℕ
index_of negative lines = none
index_of (pos zero) lines = none
index_of (pos (suc i)) lines = if ltb i (length lines) then some i else none

abbrev pub appended : String → String → String
appended content fixed_code = join content (join break_text fixed_code)

abbrev pub replaced_at : String → String → List String → Option ℕ → String
replaced_at content fixed_code lines none = appended content fixed_code
replaced_at content fixed_code lines (some i) = join_lines (set_at i (as_line fixed_code) lines)

abbrev pub edited_at : String → String → List String → Option ℕ → String
edited_at content fixed_code lines none = appended content fixed_code
edited_at content fixed_code lines (some i) =
    if str_eq fixed_code ""
    then join_lines (delete_at i lines)
    else join_lines (set_at i (as_line fixed_code) lines)

abbrev pub fallback : String → String → List String → Option Number → String
fallback content fixed_code lines none = fixed_code
fallback content fixed_code lines (some n) = replaced_at content fixed_code lines (index_of n lines)

abbrev pub fuzzy : String → String → List String → Option Number → Option (List String) → String
fuzzy content fixed_code lines n (some changed) = join_lines changed
fuzzy content fixed_code lines n none = fallback content fixed_code lines n

-- Strategy 3, and 4 where there is no line number.
abbrev pub by_number : String → String → Option Number → String
by_number content fixed_code none = fixed_code
by_number content fixed_code (some n) =
    edited_at content fixed_code (split_lines content) (index_of n (split_lines content))

-- Strategies 1 and 2
abbrev pub by_code : String → String → String → Option Number → String
by_code content fixed_code current_code n =
    if contains (strip current_code) content
    then replace current_code fixed_code content
    else (let lines = split_lines content in
        fuzzy content fixed_code lines n
          (replace_fitting (normalized current_code) (as_line fixed_code) lines))

abbrev or_blank : Option String → String
or_blank none = ""
or_blank (some s) = s

-- The new text of a file.
unfoldable pub updated_content : String → String → Option String → Option Number → String
unfolding splitting
updated_content content fixed_code current_code n =
    if truthy current_code
    then by_code content fixed_code (or_blank current_code) n
    else by_number content fixed_code n
