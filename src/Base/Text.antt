-- ===== src/Base/Text.antt =====
-- Python texts: equality, truth, lower case and substring search. Lower case is that of ASCII
-- letters; other letters stay as they are.
use Prim.Native.Nat.{ℕ, zero, suc, ◌+◌, ◌-◌}
use Prim.Native.Char.{code}
use Prim.Native.String.{String}
use mathlib.Core.Path.{◌≡◌, refl}
use mathlib.Core.Logic.{◌≢◌}
use native.Mathlib.Omega.{arith}
use text.Mathlib.TextEquality.{eq_iff}
use mathlib.Core.Bool.{Bool, true, false, not, ◌&&◌, ◌||◌}
use mathlib.Core.Option.{Option, none, some}
use mathlib.Core.List.{List, [], ◌∷◌}
use text.Mathlib.Text.{◌==◌}
use devflowfix.Base.Tests.{is_some, leb, if◌then◌else◌, ◌==◌ as num_eq}

abbrev pub str_eq : String → String → Bool
str_eq s t = s == t

-- bool(s) of a text that may be missing
abbrev pub truthy : Option String → Bool
truthy none = false
truthy (some s) = not (s == "")

-- The code points of a text.
abbrev pub codes : String → List ℕ
codes String.[] = []
codes (String.◌∷◌ c s) = code c ∷ codes s

lower_code : ℕ → ℕ
lower_code c = if leb b'A' c && leb c b'Z' then c + 32 else c

-- s.lower(), as code points
unfoldable pub lower : String → List ℕ
unfolding lower_code
lower String.[] = []
lower (String.◌∷◌ c s) = lower_code (code c) ∷ lower s

unfoldable pub same_codes : List ℕ → List ℕ → Bool
same_codes [] [] = true
same_codes (x ∷ xs) (y ∷ ys) = num_eq x y && same_codes xs ys
same_codes _ _ = false

begins_with : List ℕ → List ℕ → Bool
begins_with [] ys = true
begins_with (x ∷ xs) [] = false
begins_with (x ∷ xs) (y ∷ ys) = num_eq x y && begins_with xs ys

-- `xs in ys`, for texts given by their code points
unfoldable pub occurs : List ℕ → List ℕ → Bool
unfolding begins_with
occurs xs [] = begins_with xs []
occurs xs (y ∷ ys) = begins_with xs (y ∷ ys) || occurs xs ys

-- len(s)
abbrev pub size : String → ℕ
size String.[] = 0
size (String.◌∷◌ c s) = suc (size s)

-- s + t
unfoldable pub join : String → String → String
join String.[] t = t
join (String.◌∷◌ c s) t = String.◌∷◌ c (join s t)

pub ne_of_str_eq : (s t : String) → str_eq s t ≡ false → s ≢ t
ne_of_str_eq s t h e = ground (arith, eq_iff s t)

-- The rest of a text behind a prefix, where it starts with it.
unfoldable pub behind : String → String → Option String
behind String.[] s = some s
behind (String.◌∷◌ c p) String.[] = none
behind (String.◌∷◌ c p) (String.◌∷◌ d s) =
    let rest = behind p s in if num_eq (code c) (code d) then rest else none

-- needle in text
unfoldable pub contains : String → String → Bool
contains p String.[] = is_some (behind p String.[])
contains p (String.◌∷◌ c s) = is_some (behind p (String.◌∷◌ c s)) || contains p s

-- The loop of `replace`; `k` characters of a match are still to be skipped.
unfoldable pub replacing : String → String → ℕ → String → String
replacing p t k String.[] = String.[]
replacing p t (suc k) (String.◌∷◌ c s) = replacing p t k s
replacing p t zero (String.◌∷◌ c s) =
    let skipped = replacing p t (size p - 1) s in
    let kept = replacing p t zero s in
    if is_some (behind p (String.◌∷◌ c s)) then join t skipped else String.◌∷◌ c kept

-- text.replace(old, new), of an old text that is not empty
unfoldable pub replace : String → String → String → String
unfolding replacing
replace old new s = replacing old new zero s

pub replacing_free : (p t s : String) → contains p s ≡ false → replacing p t zero s ≡ s
unfolding replacing contains
replacing_free p t String.[] h = refl
replacing_free p t (String.◌∷◌ c s) h = ground (arith, replacing_free p t s)

-- white space of ASCII
abbrev pub is_space : ℕ → Bool
is_space c = num_eq c 32 || (leb 9 c && leb c 13 || leb 28 c && leb c 31)

unfoldable pub strip_left : String → String
strip_left String.[] = String.[]
strip_left (String.◌∷◌ c s) =
    let rest = strip_left s in if is_space (code c) then rest else String.◌∷◌ c s

-- The white space at the end goes: a character stays where it or a later one is none.
unfoldable pub strip_right : String → String
strip_right String.[] = String.[]
strip_right (String.◌∷◌ c s) =
    let rest = strip_right s in
    if is_space (code c) && rest == "" then String.[] else String.◌∷◌ c rest

-- text.strip()
abbrev pub strip : String → String
strip s = strip_right (strip_left s)

-- sep.join(lines)
unfoldable pub join_all : String → List String → String
join_all sep [] = String.[]
join_all sep (line ∷ []) = line
join_all sep (line ∷ next ∷ lines) = join line (join sep (join_all sep (next ∷ lines)))
