-- ===== src/Edits/Lines.antt =====
-- app/services/pr_creator.py: what an edit makes of the text of a file.
use devflowfix.Base.{
  join_all, zero, suc, ◌≡◌, ◌≢◌, refl, true, false, Option, none, some, [], ◌∷◌, String, contains,
  join, replace, replacing_free, strip, truthy, str_eq, if◌then◌else◌, arith,
}
use devflowfix.Edits.{
  Number, pos, negative, break_text, splitting, split_lines, as_line, appended, updated_content,
  set_at, delete_at, edited_at, index_of,
}

-- A text without the separator is one line.
splitting_free : (sep s : String) → contains sep s ≡ false → splitting sep zero s ≡ s ∷ []
unfolding splitting contains join
splitting_free sep String.[] h = refl
splitting_free sep (String.◌∷◌ c s) h =
    let rest = splitting_free sep s (ground (arith, h)) in ground (arith, h, rest)

edited_at-other :
    (content fixed : String) (n : Number)
    → n ≢ pos 1
    → edited_at content fixed (content ∷ []) (index_of n (content ∷ [])) ≡ appended content fixed
edited_at-other content fixed negative d = refl
edited_at-other content fixed (pos zero) d = refl
edited_at-other content fixed (pos (suc zero)) d = absurd (d refl)
edited_at-other content fixed (pos (suc (suc i))) d = ground arith

-- Most files hold no text "\\n", and then an edit by line number spoils them, whatever their line breaks
-- are: at line 1 the new code, without backslashes and letters n at its end where it ends so,
-- replaces the whole file, and an empty one empties it; at any other line the file is kept, and
-- the text "\\n" and the new code are put behind it.
pub updated_content-unbroken :
    (content fixed : String)
    → contains break_text content ≡ false
    → (updated_content content fixed none (some (pos 1))
        ≡ (if str_eq fixed "" then "" else as_line fixed))
      × ((n : Number)
          → n ≢ pos 1
          → updated_content content fixed none (some n) ≡ appended content fixed)
unfolding updated_content split_lines set_at delete_at join_all
updated_content-unbroken content fixed h =
    let whole = splitting_free break_text content h in
    (rw whole refl, λ n d. rw whole (edited_at-other content fixed n d))

-- Code that is found in the file only without the white space around it is not replaced: the file
-- stays as it is, though it is written and reported. Code that is found as it stands is replaced.
pub updated_content-exact :
    (content fixed current : String) (n : Option Number)
    → truthy (some current) ≡ true
    → contains (strip current) content ≡ true
    → (updated_content content fixed (some current) n ≡ replace current fixed content)
      × (contains current content ≡ false
          → updated_content content fixed (some current) n ≡ content)
unfolding updated_content replace
updated_content-exact content fixed current n t h =
    (ground (arith, t, h), λ f. ground (arith, t, h, replacing_free current fixed content f))
