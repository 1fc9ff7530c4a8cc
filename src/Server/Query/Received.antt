-- ===== src/Server/Query/Received.antt =====
-- The URL that the dashboard asks the server to explain, as the server reads it.
use Prim.Native.Char.{Char, char, code}
use Prim.Native.Nat.{Ordering, compare}
use native.Mathlib.Omega.{compare-lt}
use mathlib.Core.Path.{subst}
use mathlib.Core.List.{append_assoc, append-nil}
use go_php.Prelude.{
  ℕ, zero, suc, ◌+◌, ◌*◌, ◌/◌, ◌%◌, ◌<◌, ◌≡◌, refl, String, Option, none, some, List, [], ◌∷◌, ◌++◌,
  Bool, true, false, not, ◌==◌, ltb, length, All, arith, ap, sym, ◌∙◌, Bool-cases, inl, inr,
  if◌then◌else◌,
}
use go_php.Prelude.Text
use go_php.Prelude.Text.{AllChars, AllChars-mono}
use go_php.Prelude.Bytes.{Bytes, bytes, same_bytes}
use go_php.Dashboard.Client.Calls.{explain_request}
use go_php.Dashboard.Client.Encoding.{
  hex_digits, pick, digit_text, is_unreserved, utf8, percent, encode_char, encode_uri_component,
}
use go_php.Dashboard.Client.Laws.{is_query_char, encode_uri_component-AllChars}
use go_php.Server.Mux.{explain, reaches}
use go_php.Server.Query.{
  utf8_bytes, before, after, has_char, hex_value, put_all, plain, unescape, settings, get,
  query_value,
}

-- A Unicode scalar value is below 110000 (hexadecimal).
BelowLt : Ordering → Ordering → Type 0
BelowLt Ordering.lt Ordering.lt = Unit
BelowLt Ordering.lt _ = ⊥
BelowLt _ _ = ⊥

Scalar : Ordering → Ordering → Ordering → Type 0
Scalar Ordering.lt p q = Unit
Scalar _ p q = BelowLt p q

Scalar-lt :
    (n : ℕ) (o p q : Ordering)
    → compare n 55296 ≡ o
    → compare n 1114112 ≡ q
    → Scalar o p q
    → n < 1114112
unfolding Scalar BelowLt
Scalar-lt n Ordering.lt p q e f h = omega (arith, compare-lt n 55296 e)
Scalar-lt n Ordering.eq Ordering.lt Ordering.lt e f h = compare-lt n 1114112 f
Scalar-lt n Ordering.gt Ordering.lt Ordering.lt e f h = compare-lt n 1114112 f
Scalar-lt n _ _ _ e f h = absurd h

code-lt : (c : Char) → code c < 1114112
unfolding Scalar BelowLt
code-lt (char n p) = Scalar-lt n (compare n 55296) (compare 57343 n) (compare n 1114112) refl refl p

utf8-bytes : (c : ℕ) → c < 1114112 → All (λ b. b < 256) (utf8 c)
unfolding utf8
utf8-bytes c h = elim (Bool-cases (ltb c 0x80)) [
  | inl one ↦ rw one (ground arith, tt)
  | inr more ↦ rw more (elim (Bool-cases (ltb c 0x800)) [
    | inl two ↦ rw two (ground arith, (ground arith, tt))
    | inr many ↦ rw many (elim (Bool-cases (ltb c 0x10000)) [
      | inl three ↦ rw three (ground arith, (ground arith, (ground arith, tt)))
      | inr four ↦ rw four (ground arith, (ground arith, (ground arith, (ground arith, tt))))
    ])
  ])
]

-- A digit's text, and the texts of the digits from one on.
IsDigit : ℕ → String → Type 0
IsDigit n (String.◌∷◌ c String.[]) = hex_value (code c) ≡ some n
IsDigit n _ = ⊥

AreDigits : ℕ → List String → Type 0
AreDigits n [] = Unit
AreDigits n (d ∷ ds) = IsDigit n d × AreDigits (suc n) ds

pick-IsDigit :
    (ds : List String) (k n m : ℕ)
    → AreDigits k ds
    → n < length ds
    → k + n ≡ m
    → IsDigit m (pick ds n)
unfolding AreDigits
pick-IsDigit [] k n m h l e = absurd (omega arith)
pick-IsDigit (d ∷ ds) k zero m h l e = subst (λ x. IsDigit x d) (omega arith) h.0
pick-IsDigit (d ∷ ds) k (suc n) m h l e =
    pick-IsDigit ds (suc k) n m h.1 (omega arith) (omega arith)

digit_text-IsDigit : (n : ℕ) → n < 16 → IsDigit n (digit_text n)
unfolding digit_text AreDigits IsDigit hex_value
digit_text-IsDigit n h =
    pick-IsDigit hex_digits 0 n n
      (
        refl,
        (
          refl,
          (
            refl,
            (
              refl,
              (
                refl,
                (
                  refl,
                  (
                    refl,
                    (refl, (refl, (refl, (refl, (refl, (refl, (refl, (refl, (refl, tt))))))))),
                  ),
                ),
              ),
            ),
          ),
        ),
      )
      h (omega arith)

escape_lem :
    (d e s : String) (i j : ℕ)
    → IsDigit i d
    → IsDigit j e
    → unescape (Text.◌++◌ "%" (Text.◌++◌ d (Text.◌++◌ e s)))
      ≡ put_all ((i * 16 + j) ∷ []) (unescape s)
unfolding unescape IsDigit
escape_lem (String.◌∷◌ c String.[]) (String.◌∷◌ b String.[]) s i j h k = rw (h, k) refl
escape_lem (String.◌∷◌ c String.[]) _ s i j h k = absurd k
escape_lem _ e s i j h k = absurd h

put_all-nil : (r : Option Bytes) → r ≡ put_all [] r
put_all-nil none = refl
put_all-nil (some r) = refl

put_all-append :
    (ds bs : Bytes) (r : Option Bytes) → put_all ds (put_all bs r) ≡ put_all (ds ++ bs) r
put_all-append ds bs none = refl
put_all-append ds bs (some r) = ap some (sym (append_assoc ds bs r))

text_assoc : (s t u : String) → Text.◌++◌ (Text.◌++◌ s t) u ≡ Text.◌++◌ s (Text.◌++◌ t u)
text_assoc String.[] t u = refl
text_assoc (String.◌∷◌ c s) t u = ap (String.◌∷◌ c) (text_assoc s t u)

-- The escapes of bytes are read as these.
unescape-percent :
    (bs : Bytes) (s : String)
    → All (λ b. b < 256) bs
    → unescape (Text.◌++◌ (percent bs) s) ≡ put_all bs (unescape s)
unfolding percent
unescape-percent [] s h = put_all-nil (unescape s)
unescape-percent (b ∷ bs) s h =
    let rest = unescape-percent bs s h.1 in
    let regroup =
      text_assoc (digit_text (b / 16)) (Text.◌++◌ (digit_text (b % 16)) (percent bs)) s
      ∙ ap (Text.◌++◌ (digit_text (b / 16))) (text_assoc (digit_text (b % 16)) (percent bs) s) in
    let first =
      escape_lem (digit_text (b / 16)) (digit_text (b % 16)) (Text.◌++◌ (percent bs) s) (b / 16)
        (b % 16) (digit_text-IsDigit (b / 16) (omega (arith, h.0)))
        (digit_text-IsDigit (b % 16) (omega arith)) in
    let value : b / 16 * 16 + b % 16 ≡ b = omega arith in
    ap (λ t. unescape (Text.◌++◌ "%" t)) regroup
    ∙ first
    ∙ ap (put_all ((b / 16 * 16 + b % 16) ∷ [])) rest
    ∙ put_all-append ((b / 16 * 16 + b % 16) ∷ []) bs (unescape s)
    ∙ ap (λ x. put_all (x ∷ bs) (unescape s)) value

-- A character that is no percent sign is read by itself.
unescape-plain :
    (c : Char) (s : String)
    → (code c == b'%') ≡ false
    → unescape (String.◌∷◌ c s) ≡ put_all (plain (code c)) (unescape s)
unfolding unescape
unescape-plain c String.[] h = rw h (ap some (sym (append-nil _)))
unescape-plain c (String.◌∷◌ x String.[]) h = rw h refl
unescape-plain c (String.◌∷◌ x (String.◌∷◌ y s)) h = rw h refl

unreserved_lem : (c : ℕ) → is_unreserved c ≡ true → ((c == b'%') ≡ false) × ((c == b'+') ≡ false)
unfolding is_unreserved
unreserved_lem c h = (ground arith, ground arith)

unescape-encode_char :
    (c : Char) (s : String)
    → unescape (Text.◌++◌ (encode_char c) s) ≡ put_all (utf8 (code c)) (unescape s)
unfolding encode_char
unescape-encode_char c s = elim (Bool-cases (is_unreserved (code c))) [
  | inl kept ↦ rw kept (
      let (no_percent, no_plus) = unreserved_lem (code c) kept in
      unescape-plain c s no_percent
      ∙ ap (λ b. put_all (if b then b' ' ∷ [] else utf8 (code c)) (unescape s)) no_plus)
  | inr other ↦ rw other (unescape-percent (utf8 (code c)) s (utf8-bytes (code c) (code-lt c)))
]

unescape-encode_uri_component :
    (s : String) → unescape (encode_uri_component s) ≡ some (utf8_bytes s)
unfolding encode_uri_component utf8_bytes unescape
unescape-encode_uri_component String.[] = refl
unescape-encode_uri_component (String.◌∷◌ c s) =
    unescape-encode_char c (encode_uri_component s)
    ∙ ap (put_all (utf8 (code c))) (unescape-encode_uri_component s)

-- A text without the character.
lacks : ℕ → ℕ → Bool
lacks b c = not (c == b)

has_char-lacks : (b : ℕ) (s : String) → AllChars (lacks b) s → has_char b s ≡ false
unfolding has_char lacks
has_char-lacks b String.[] h = refl
has_char-lacks b (String.◌∷◌ c s) h = let rest = has_char-lacks b s h.1 in ground (arith, h.0, rest)

settings-lacks : (s : String) → AllChars (lacks b'&') s → settings s ≡ s ∷ []
unfolding settings lacks
settings-lacks String.[] h = refl
settings-lacks (String.◌∷◌ c s) h =
    let other : (code c == b'&') ≡ false = ground (arith, h.0) in
    rw (other, settings-lacks s h.1) refl

query_char-lacks :
    (b : ℕ) → is_query_char b ≡ false → (c : ℕ) → is_query_char c ≡ true → lacks b c ≡ true
unfolding lacks
query_char-lacks b out c h = elim (Bool-cases (c == b)) [
  | inr other ↦ rw other refl
  | inl equal ↦
      let same : c ≡ b = ground arith in
      let inside : is_query_char b ≡ true = subst (λ x. is_query_char x ≡ true) same h in
      absurd (cc)
]

encoded-lacks :
    (b : ℕ) (url : String) → is_query_char b ≡ false → AllChars (lacks b) (encode_uri_component url)
encoded-lacks b url out =
    AllChars-mono is_query_char (lacks b) (encode_uri_component url) (query_char-lacks b out)
      (encode_uri_component-AllChars url)

get_lem :
    (e : String) (v : Bytes)
    → settings e ≡ e ∷ []
    → has_char b';' e ≡ false
    → unescape e ≡ some v
    → get (bytes "url") (settings (Text.◌++◌ "url=" e)) ≡ v
unfolding get settings has_char before after same_bytes Text.same utf8
get_lem e v whole clean decoded = rw (whole, clean, decoded) refl

-- Whatever URL is traced: the routing table leads the call of the dashboard to the handler of
-- explanations, and the value that this handler reads for `url` from the query is the URL's text in
-- UTF-8.
pub explain_request-query_value :
    (url : String)
    → (reaches (explain_request url) ≡ some explain)
      × (query_value (bytes "url") (explain_request url).path ≡ utf8_bytes url)
unfolding explain_request reaches query_value is_unreserved
explain_request-query_value url = (
  refl,
  get_lem (encode_uri_component url) (utf8_bytes url)
      (settings-lacks (encode_uri_component url) (encoded-lacks b'&' url refl))
      (has_char-lacks b';' (encode_uri_component url) (encoded-lacks b';' url refl))
      (unescape-encode_uri_component url),
)
