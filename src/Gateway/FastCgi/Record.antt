-- ===== src/Gateway/FastCgi/Record.antt =====
-- Records: an eight-byte header, the content, and padding to a multiple of eight. `writeRecord` writes
-- what `EncodeRecord` gives, and `readRecord` reads as `DecodeRecord` does.
use go_php.Prelude.{
  ℕ, zero, suc, ◌+◌, ◌-◌, ◌*◌, ◌/◌, ◌%◌, ◌<◌, ◌≡◌, refl, List, [], ◌∷◌, ◌++◌, length, Option, none,
  some, arith, ap,
}
use mathlib.Core.List.{append_assoc}
use go_php.Gateway.FastCgi.Length.{byte}

pub record Record : Type 0 where
  pub version : ℕ
  pub type : ℕ
  pub request_id : ℕ
  pub content_length : ℕ
  pub padding_length : ℕ
  pub content : List ℕ

-- (paddingSize - n % paddingSize) % paddingSize
unfoldable pub padding : ℕ → ℕ
padding n = (8 - n % 8) % 8

abbrev pub zeros : ℕ → List ℕ
zeros zero = []
zeros (suc n) = 0 ∷ zeros n

unfoldable pub encode_record : Record → List ℕ
unfolding padding
encode_record r =
    byte r.version
    ∷ byte r.type
    ∷ byte (r.request_id / 256)
    ∷ byte r.request_id
    ∷ byte (r.content_length / 256)
    ∷ byte r.content_length
    ∷ byte (padding r.content_length)
    ∷ 0
    ∷ (r.content ++ zeros (padding r.content_length))

-- io.ReadFull of n bytes: the bytes and what is left, or an error at the end of the input.
unfoldable pub read_full : ℕ → List ℕ → Option (List ℕ × List ℕ)
read_full zero bs = some ([], bs)
read_full (suc n) [] = none
read_full (suc n) (b ∷ bs) = elim (read_full n bs) [
  | none ↦ none
  | some (taken, rest) ↦ some (b ∷ taken, rest)
]

-- What follows the header: the content, and the padding, which is skipped.
unfoldable pub read_body : Record → List ℕ → Option (Record × List ℕ)
unfolding read_full
read_body r bs = elim (read_full r.content_length bs) [
  | none ↦ none
  | some (content, rest) ↦ elim (read_full r.padding_length rest) [
    | none ↦ none
    | some (pad, left) ↦ some (record r { content = content }, left)
  ]
]

unfoldable pub decode_record : List ℕ → Option (Record × List ℕ)
decode_record (v ∷ t ∷ i1 ∷ i0 ∷ c1 ∷ c0 ∷ p ∷ _ ∷ rest) =
    read_body
      (record {
        version = v;
        type = t;
        request_id = i1 * 256 + i0;
        content_length = c1 * 256 + c0;
        padding_length = p;
        content = [];
      })
      rest
decode_record _ = none

-- The record's numbers fit their fields, and its length is that of its content.
pub record IsRecord (r : Record) : Type 0 where
  pub version : r.version < 256
  pub type : r.type < 256
  pub request_id : r.request_id < 65536
  pub content_length : r.content_length < 65536
  pub measured : length r.content ≡ r.content_length

pub read_full-append :
    (n : ℕ) (bs rest : List ℕ) → length bs ≡ n → read_full n (bs ++ rest) ≡ some (bs, rest)
unfolding read_full
read_full-append zero [] rest h = refl
read_full-append zero (b ∷ bs) rest h = absurd (omega arith)
read_full-append (suc n) [] rest h = absurd (omega arith)
read_full-append (suc n) (b ∷ bs) rest h =
    let tail : read_full n (bs ++ rest) ≡ some (bs, rest) =
      read_full-append n bs rest (omega arith) in
    rw tail refl

length-zeros : (n : ℕ) → length (zeros n) ≡ n
length-zeros zero = refl
length-zeros (suc n) = ap suc (length-zeros n)

read_body-append :
    (r : Record) (content pad rest : List ℕ)
    → length content ≡ r.content_length
    → length pad ≡ r.padding_length
    → read_body r ((content ++ pad) ++ rest) ≡ some (record r { content = content }, rest)
unfolding read_body
read_body-append r content pad rest h k =
    let inner = read_full-append r.content_length content (pad ++ rest) h in
    let outer = read_full-append r.padding_length pad rest k in
    rw (append_assoc, inner, read_body, outer) refl

padding-lt : (n : ℕ) → padding n < 8
unfolding padding
padding-lt n = omega arith

-- The record as the reader sees it: the padding's length is filled in.
abbrev pub sent : Record → Record
sent r = record r { padding_length = padding r.content_length }

-- A record whose numbers fit their fields and whose length is that of its content is read back from
-- its encoding, with the length of its padding, and nothing of what follows is taken.
pub decode_record-encode_record :
    (r : Record) (rest : List ℕ)
    → IsRecord r
    → decode_record (encode_record r ++ rest) ≡ some (sent r, rest)
unfolding decode_record encode_record
decode_record-encode_record r rest v =
    let version : byte r.version ≡ r.version = omega (arith, v.version) in
    let type : byte r.type ≡ r.type = omega (arith, v.type) in
    let id : byte (r.request_id / 256) * 256 + byte r.request_id ≡ r.request_id =
      omega (arith, v.request_id) in
    let size : byte (r.content_length / 256) * 256 + byte r.content_length ≡ r.content_length =
      omega (arith, v.content_length) in
    let pad : byte (padding r.content_length) ≡ padding r.content_length =
      omega (arith, padding-lt r.content_length) in
    rw (version, type, id, size, pad)
      (read_body-append (record (sent r) { content = [] }) r.content
        (zeros (padding r.content_length)) rest v.measured (length-zeros _))
