-- ===== src/Dashboard/Client/Laws.antt =====
-- The characters of encoded query values, and the errors of the request helper.
use Prim.Native.Char.{Char, code}
use go_php.Prelude.Text.{AllChars, AllChars-++}
use go_php.Prelude.{
  Option, none, some, false, str_eq, ℕ, zero, suc, ◌/◌, ◌%◌, String, Bool, ◌||◌, ◌≡◌, refl, List,
  [], ◌∷◌, ◌==◌, Bool-cases, inl, inr, All,
}
use go_php.Dashboard.Hooks.{rejected, error_object}
use go_php.Dashboard.Client.{JsonBody, malformed, null, value, answered, or_text, or_else, request}
use go_php.Dashboard.Client.Encoding.{
  hex_digits, pick, digit_text, is_unreserved, utf8, percent, encode_char, encode_uri_component,
}

-- The characters that an encoded value may hold: the unreserved ones and the percent sign.
abbrev pub is_query_char : ℕ → Bool
is_query_char c = is_unreserved c || c == b'%'

pick-AllChars :
    (ds : List String) (n : ℕ)
    → All (AllChars is_query_char) ds
    → AllChars is_query_char (pick ds n)
pick-AllChars [] n h = tt
pick-AllChars (d ∷ ds) zero h = h.0
pick-AllChars (d ∷ ds) (suc n) h = pick-AllChars ds n h.1

hex_digits-AllChars : All (AllChars is_query_char) hex_digits
unfolding is_unreserved
hex_digits-AllChars = (
  (refl, tt),
  (
    (refl, tt),
    (
      (refl, tt),
      (
        (refl, tt),
        (
          (refl, tt),
          (
            (refl, tt),
            (
              (refl, tt),
              (
                (refl, tt),
                (
                  (refl, tt),
                  (
                    (refl, tt),
                    (
                      (refl, tt),
                      ((refl, tt), ((refl, tt), ((refl, tt), ((refl, tt), ((refl, tt), tt))))),
                    ),
                  ),
                ),
              ),
            ),
          ),
        ),
      ),
    ),
  ),
)

digit_text-AllChars : (n : ℕ) → AllChars is_query_char (digit_text n)
unfolding digit_text
digit_text-AllChars n = pick-AllChars hex_digits n hex_digits-AllChars

percent-AllChars : (bs : List ℕ) → AllChars is_query_char (percent bs)
unfolding percent is_unreserved
percent-AllChars [] = tt
percent-AllChars (b ∷ bs) =
    AllChars-++ is_query_char "%" _ (refl, tt)
      (AllChars-++ is_query_char (digit_text (b / 16)) _ (digit_text-AllChars (b / 16)) (
        AllChars-++ is_query_char (digit_text (b % 16)) _ (digit_text-AllChars (b % 16))
          (percent-AllChars bs)))

encode_char-AllChars : (c : Char) → AllChars is_query_char (encode_char c)
unfolding encode_char
encode_char-AllChars c = elim (Bool-cases (is_unreserved (code c))) [
  | inl plain ↦ rw plain (rw plain refl, tt)
  | inr other ↦ rw other (percent-AllChars (utf8 (code c)))
]

pub encode_uri_component-AllChars : (s : String) → AllChars is_query_char (encode_uri_component s)
unfolding encode_uri_component
encode_uri_component-AllChars String.[] = tt
encode_uri_component-AllChars (String.◌∷◌ c s) =
    AllChars-++ is_query_char (encode_char c) _ (encode_char-AllChars c)
      (encode_uri_component-AllChars s)

-- A body that is not the JSON value `null`.
abbrev pub NotNull {ℓ} : {T : Type ℓ} → JsonBody T → Type 0
NotNull (null m t) = ⊥
NotNull _ = Unit

or_text-filled : (a b : String) → str_eq b "" ≡ false → str_eq (or_text a b) "" ≡ false
or_text-filled a b h = elim (Bool-cases (str_eq a "")) [
  | inl empty ↦ rw empty h
  | inr full ↦ rw (full, full) refl
]

or_else-filled :
    (o : Option String) (b : String) → str_eq b "" ≡ false → str_eq (or_else o b) "" ≡ false
or_else-filled none b h = h
or_else-filled (some a) b h = or_text-filled a b h

-- An answer whose status is not ok is an error with a message that is not empty, whether its body is
-- JSON or not, holds an error text or none, unless the body is `null`.
pub request-refused {ℓ} :
    {T : Type ℓ} (status_text : String) (body : JsonBody T)
    → NotNull body
    → (m : String) × (request (answered false status_text body) ≡ rejected (error_object m))
      × (str_eq m "" ≡ false)
unfolding request
request-refused status_text (malformed m) h =
    (or_text status_text "Request failed", refl, or_text-filled status_text "Request failed" refl)
request-refused status_text (null m t) h = absurd h
request-refused status_text (value error t) h =
    (or_else error "Request failed", refl, or_else-filled error "Request failed" refl)
