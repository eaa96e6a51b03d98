-- ===== src/RateLimit/Keys.antt =====
-- app/middleware.py: the keys of the counts, written and read back.
use Prim.Native.Char.{code}
use devflowfix.Base.{
  ℕ, zero, suc, ◌+◌, ◌/◌, ◌%◌, ◌<◌, ◌≡◌, refl, ap, sym, ◌∙◌, Bool, true, false, ◌||◌, some, String,
  join, ◌==◌, arith,
}
use devflowfix.RateLimit.{
  digit, digits, decimal, scan, int_of, until_colon, after_colon, key_of, bucket_of,
}

-- ":" in text
unfoldable pub has_colon : String → Bool
has_colon String.[] = false
has_colon (String.◌∷◌ c s) = code c == b':' || has_colon s

code-digit : (n : ℕ) → n < 10 → code (digit n) ≡ b'0' + n
unfolding digit
code-digit zero h = refl
code-digit (suc zero) h = refl
code-digit (suc (suc zero)) h = refl
code-digit (suc (suc (suc zero))) h = refl
code-digit (suc (suc (suc (suc zero)))) h = refl
code-digit (suc (suc (suc (suc (suc zero))))) h = refl
code-digit (suc (suc (suc (suc (suc (suc zero)))))) h = refl
code-digit (suc (suc (suc (suc (suc (suc (suc zero))))))) h = refl
code-digit (suc (suc (suc (suc (suc (suc (suc (suc zero)))))))) h = refl
code-digit (suc (suc (suc (suc (suc (suc (suc (suc (suc zero))))))))) h = refl
code-digit (suc (suc (suc (suc (suc (suc (suc (suc (suc (suc n)))))))))) h = absurd (omega arith)

scan_last : (n : ℕ) (out : String) → scan (String.◌∷◌ (digit (n % 10)) out) (n / 10) ≡ scan out n
unfolding scan
scan_last n out = ground (arith, code-digit (n % 10) (omega arith))

scan-digits : (f n : ℕ) (out : String) → n < f → scan (digits f n out) 0 ≡ scan out n
unfolding digits
scan-digits zero n out h = absurd (omega arith)
scan-digits (suc f) n out h =
    ground (arith, scan_last n out, scan-digits f (n / 10) (String.◌∷◌ (digit (n % 10)) out))

digits_free : (f n : ℕ) (out : String) → has_colon out ≡ false → has_colon (digits f n out) ≡ false
unfolding digits has_colon
digits_free zero n out h = h
digits_free (suc f) n out h = ground (
  arith,
  code-digit (n % 10) (omega arith),
  digits_free f (n / 10) (String.◌∷◌ (digit (n % 10)) out),
)

until_colon_free : (s : String) → has_colon s ≡ false → until_colon s ≡ s
unfolding has_colon until_colon
until_colon_free String.[] h = refl
until_colon_free (String.◌∷◌ c s) h = ground (arith, until_colon_free s)

after_colon-join : (s t : String) → has_colon s ≡ false → after_colon (join s (join ":" t)) ≡ t
unfolding has_colon after_colon join
after_colon-join String.[] t h = refl
after_colon-join (String.◌∷◌ c s) t h = ground (arith, after_colon-join s t)

until_colon-join : (s t : String) → has_colon s ≡ false → until_colon (join s (join ":" t)) ≡ s
unfolding has_colon until_colon join
until_colon-join String.[] t h = refl
until_colon-join (String.◌∷◌ c s) t h = ground (arith, until_colon-join s t)

-- A decimal print is not empty.
is_text : String → Bool
is_text String.[] = false
is_text (String.◌∷◌ c s) = true

digits_text : (f n : ℕ) (out : String) → is_text out ≡ true → is_text (digits f n out) ≡ true
unfolding digits is_text
digits_text zero n out h = h
digits_text (suc f) n out h =
    ground (arith, digits_text f (n / 10) (String.◌∷◌ (digit (n % 10)) out))

int_of-text : (s : String) → is_text s ≡ true → int_of s ≡ scan s 0
unfolding int_of is_text
int_of-text String.[] h = cc
int_of-text (String.◌∷◌ c s) h = refl

decimal_text : (n : ℕ) → is_text (decimal n) ≡ true
unfolding decimal digits is_text
decimal_text n = ground (arith, digits_text n (n / 10) (String.◌∷◌ (digit (n % 10)) String.[]))

scan-decimal : (n : ℕ) → scan (decimal n) 0 ≡ some n
unfolding decimal scan
scan-decimal n = scan-digits (suc n) n String.[] (omega arith)

-- Every number is read back from its decimal print.
int_of-decimal : (n : ℕ) → int_of (decimal n) ≡ some n
int_of-decimal n = int_of-text (decimal n) (decimal_text n) ∙ scan-decimal n

decimal_free : (n : ℕ) → has_colon (decimal n) ≡ false
unfolding decimal has_colon
decimal_free n = digits_free (suc n) n String.[] refl

minute_back :
    (client : String) (b : ℕ) → has_colon client ≡ false → bucket_of (key_of client b) ≡ some b
unfolding bucket_of key_of
minute_back client b h =
    ap (λ t. int_of (until_colon t)) (after_colon-join client (decimal b) h)
    ∙ (ap int_of (until_colon_free (decimal b) (decimal_free b)) ∙ int_of-decimal b)

some_inj : {n m : ℕ} → some n ≡ some m → n ≡ m
some_inj e = ground arith

-- Both parts of a key are read back from it, if the client has no colon: the minute as the clean-up
-- reads it, and so two keys of such clients are the same text only for the same client and minute.
pub bucket_of-key_of :
    (client : String) (b : ℕ)
    → has_colon client ≡ false
    → (bucket_of (key_of client b) ≡ some b)
      × ((other : String) (b' : ℕ)
          → has_colon other ≡ false
          → key_of other b' ≡ key_of client b
          → (other ≡ client) × (b' ≡ b))
unfolding bucket_of key_of
bucket_of-key_of client b h =
    let minute = minute_back client b h in
    (
      minute,
      λ other b' h' e. (
        sym (until_colon-join other (decimal b') h')
            ∙ (ap until_colon e ∙ until_colon-join client (decimal b) h),
        some_inj (sym (minute_back other b' h') ∙ (ap bucket_of e ∙ minute)),
      ),
    )
