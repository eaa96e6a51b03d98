-- ===== src/Edits/Once.antt =====
-- app/services/pr_creator.py: what becomes of a file that one of several code changes names.
use devflowfix.Base.{
  ◌≡◌, refl, ap, ◌∙◌, Bool, true, false, ◌||◌, Option, none, some, List, [], ◌∷◌, ◌++◌, String, any,
  str_eq, eq_iff, arith,
}
use devflowfix.Edits.{Number, Change}
use devflowfix.Edits.Writes.{
  File, Contents, new_text, written, listed, change_file, line_number_of, apply_code_changes,
}
use devflowfix.Edits.Applied.{named, apply_code_changes-frame}

listed-append :
    (path : Option String) (ps qs : List String) → listed path (ps ++ qs) ≡ listed path ps ++ qs
listed-append none ps qs = refl
listed-append (some p) ps qs = refl

any-append : (q : String → Bool) (ps qs : List String) → any q (ps ++ qs) ≡ (any q ps || any q qs)
unfolding any
any-append q [] qs = refl
any-append q (p ∷ ps) qs = ground (arith, any-append q ps qs)

unnamed : (b c : Bool) → (b ≡ true → c ≡ true) → c ≡ false → b ≡ false
unnamed true c h n = ground (arith, h refl, n)
unnamed false c h n = refl

module _ {ℓ} {R : Type ℓ} (api : Contents R) (int_of : String → Option Number) where
  open api use {read, write}

  -- The changes of two lists, one after the other, whatever fails among the first.
  apply_code_changes-append :
      (cs ds : List Change) (r : R)
      → let a = apply_code_changes api int_of cs r in
        let b = apply_code_changes api int_of ds a.0 in
        apply_code_changes api int_of (cs ++ ds) r ≡ (b.0, a.1 ++ b.1)
  unfolding apply_code_changes
  apply_code_changes-append [] ds r = refl
  apply_code_changes-append (c ∷ cs) ds r =
      let a = change_file api int_of c c.file_path c.fixed_code r in
      let on = apply_code_changes-append cs ds a.0 in
      let rest = apply_code_changes api int_of cs a.0 in
      let last = apply_code_changes api int_of ds rest.0 in
      ap (λ x. (x.0, listed a.1 x.1)) on ∙ ap (λ ps. (last.0, ps)) (listed-append a.1 rest.1 last.1)

  -- The writes of a list that starts with a change of a path and a text, by GitHub's answer.
  first_written :
      (ds : List Change) (c : Change) (path fixed : String) (r : R) (old : Option File)
      (o : Option R)
      → c.file_path ≡ some path
      → c.fixed_code ≡ some fixed
      → str_eq path "" ≡ false
      → read path r ≡ old
      → let t = new_text api fixed c.current_code (line_number_of api int_of c.line_number) old in
        write path t.0 t.1 r ≡ o
        → let w = written api path r o in
          let b = apply_code_changes api int_of ds w.0 in
          apply_code_changes api int_of (c ∷ ds) r ≡ (b.0, listed w.1 b.1)
  unfolding apply_code_changes
  first_written ds c path fixed r old o p q e h w = rw (p, q, e, h, w) refl

  -- A change with a text and a path that is not empty and that no other change of the list names
  -- decides alone what becomes of its file, wherever it stands and whatever GitHub makes of the
  -- others. Its text is made of what the file held before all of them. Where GitHub refuses to
  -- write that text after the changes before it, the file is at the end as it was and is not
  -- reported. Where GitHub accepts it, the file has that text at the end and is reported.
  pub apply_code_changes-once :
      (cs ds : List Change) (c : Change) (path fixed : String) (r : R)
      → c.file_path ≡ some path
      → c.fixed_code ≡ some fixed
      → str_eq path "" ≡ false
      → named path cs ≡ false
      → named path ds ≡ false
      → let before = (apply_code_changes api int_of cs r).0 in
        let n = line_number_of api int_of c.line_number in
        let t = new_text api fixed c.current_code n (read path r) in
        let a = apply_code_changes api int_of (cs ++ c ∷ ds) r in
        (write path t.0 t.1 before ≡ none
          → (read path a.0 ≡ read path r) × (any (str_eq path) a.1 ≡ false))
        × ((r' : R)
            → write path t.0 t.1 before ≡ some r'
            → ((f : File) × (read path a.0 ≡ some f) × (f.content ≡ some t.0))
              × (any (str_eq path) a.1 ≡ true))
  unfolding apply_code_changes any
  apply_code_changes-once cs ds c path fixed r p q e h k =
      let a = apply_code_changes api int_of cs r in
      let n = line_number_of api int_of c.line_number in
      let (same, told) = apply_code_changes-frame api int_of cs r path in
      let t = new_text api fixed c.current_code n (read path r) in
      let quiet = unnamed _ _ told h in
      let on = apply_code_changes-append cs (c ∷ ds) r in
      (
        λ w.
            let all =
              on
              ∙ ap (λ b. (b.0, a.1 ++ b.1))
                  (first_written ds c path fixed a.0 (read path r) none p q e (same h) w) in
            let (kept, later) = apply_code_changes-frame api int_of ds a.0 path in
            rw (all, kept k, same h)
              (refl, any-append (str_eq path) a.1 _ ∙ rw (quiet, unnamed _ _ later k) refl),
        λ r' w.
            let all =
              on
              ∙ ap (λ b. (b.0, a.1 ++ b.1))
                  (first_written ds c path fixed a.0 (read path r) (some r') p q e (same h) w) in
            let (kept, later) = apply_code_changes-frame api int_of ds r' path in
            rw (all, kept k)
              (
                api.read-write path t.0 t.1 a.0 r' w,
                any-append (str_eq path) a.1 _ ∙ ground (arith, eq_iff path path, quiet),
              ),
      )
