-- ===== src/Gateway/FastCgi/Request/Received.antt =====
-- What a FastCGI server receives of a request.
use mathlib.Core.List.{append-nil}
use go_php.Prelude.{
  ℕ, zero, suc, ◌≤◌, ◌<◌, ◌≡◌, refl, List, [], ◌∷◌, ◌++◌, map, length, length-append, Option, none,
  some, arith, All, ◌==◌, ◌∙◌, ap, if◌then◌else◌,
}
use go_php.Gateway.FastCgi.Record.{
  Record, IsRecord, encode_record, decode_record, sent, decode_record-encode_record,
}
use go_php.Gateway.FastCgi.Params.{
  Pair, encode_params, decode_params, Fits, decode_params-encode_params,
}
use go_php.Gateway.FastCgi.Request.{
  record_of, begin_request, send_params, eof, reads, stdin_chunks, send_stdin, request_records,
  encode_all, request_bytes,
}

-- A server reads record after record; the fuel is the number of bytes.
unfoldable pub decode_all : ℕ → List ℕ → Option (List Record)
decode_all fuel [] = some []
decode_all zero (b ∷ bs) = none
decode_all (suc fuel) (b ∷ bs) = elim (decode_record (b ∷ bs)) [
  | none ↦ none
  | some (r, rest) ↦ elim (decode_all fuel rest) [ none ↦ none | some rs ↦ some (r ∷ rs) ]
]

-- The stream of a type: the contents of its records, one after the other.
unfoldable pub stream : ℕ → List Record → List ℕ
stream type [] = []
stream type (r ∷ rs) =
    let rest = stream type rs in if r.type == type then r.content ++ rest else rest

abbrev pub concat : List (List ℕ) → List ℕ
concat [] = []
concat (c ∷ cs) = c ++ concat cs

-- The parameters and the body that a server makes of the bytes.
unfoldable pub received : List ℕ → Option (Option (List Pair) × List ℕ)
received bs = elim (decode_all (length bs) bs) [
  | none ↦ none
  | some rs ↦ some (decode_params (stream 4 rs), stream 5 rs)
]

received_of :
    (bs : List ℕ) (rs : List Record) (p : Option (List Pair)) (b : List ℕ)
    → decode_all (length bs) bs ≡ some rs
    → decode_params (stream 4 rs) ≡ p
    → stream 5 rs ≡ b
    → received bs ≡ some (p, b)
unfolding received
received_of bs rs p b read params body = rw (read, received, params, body) refl

pub length-encode_record : (r : Record) → 8 ≤ length (encode_record r)
unfolding encode_record
length-encode_record r = omega arith

decode_all_step :
    (fuel : ℕ) (bs rest : List ℕ) (r : Record) (rs : List Record)
    → decode_record bs ≡ some (r, rest)
    → decode_all fuel rest ≡ some rs
    → 8 ≤ length bs
    → decode_all (suc fuel) bs ≡ some (r ∷ rs)
unfolding decode_all
decode_all_step fuel [] rest r rs e t l = absurd (omega arith)
decode_all_step fuel (b ∷ bs) rest r rs e t l = rw (e, decode_all, t) refl

decode_all-encode_all :
    (fuel : ℕ) (rs : List Record)
    → All IsRecord rs
    → length (encode_all rs) ≤ fuel
    → decode_all fuel (encode_all rs) ≡ some (map sent rs)
unfolding encode_all decode_all
decode_all-encode_all fuel [] h k = refl
decode_all-encode_all zero (r ∷ rs) h k =
    absurd (omega (arith, length-append (encode_record r) (encode_all rs), length-encode_record r))
decode_all-encode_all (suc fuel) (r ∷ rs) h k =
    let size = length-append (encode_record r) (encode_all rs) in
    let head = length-encode_record r in
    decode_all_step fuel (encode_record r ++ encode_all rs) (encode_all rs) (sent r) (map sent rs)
      (decode_record-encode_record r (encode_all rs) h.0)
      (decode_all-encode_all fuel rs h.1 (omega (arith, size, head))) (omega (arith, size, head))

-- A record of the request: its content is as long as its length can say.
pub record_of-IsRecord :
    (type id : ℕ) (c : List ℕ)
    → type < 256
    → id < 65536
    → length c < 65536
    → IsRecord (record_of type id c)
record_of-IsRecord type id c t i l = record {
  version = omega arith;
  type = t;
  request_id = i;
  content_length = omega arith;
  measured = omega arith;
}

abbrev Short : List ℕ → Type 0
Short c = length c < 65536

stdin_chunks-IsRecord :
    (id : ℕ) (cs : List (List ℕ))
    → id < 65536
    → All Short cs
    → All IsRecord (stdin_chunks id cs ++ record_of 5 id [] ∷ [])
stdin_chunks-IsRecord id [] i h = (record_of-IsRecord 5 id [] (omega arith) i (omega arith), tt)
stdin_chunks-IsRecord id (c ∷ cs) i h =
    (record_of-IsRecord 5 id c (omega arith) i h.0, stdin_chunks-IsRecord id cs i h.1)

stream_params :
    (id : ℕ) (cs : List (List ℕ))
    → stream 4 (map sent (stdin_chunks id cs ++ record_of 5 id [] ∷ [])) ≡ []
unfolding stream
stream_params id [] = refl
stream_params id (c ∷ cs) = stream_params id cs

stream_stdin :
    (id : ℕ) (cs : List (List ℕ))
    → stream 5 (map sent (stdin_chunks id cs ++ record_of 5 id [] ∷ [])) ≡ concat cs
unfolding stream
stream_stdin id [] = refl
stream_stdin id (c ∷ cs) = ap (λ s. c ++ s) (stream_stdin id cs)

request_records-IsRecord :
    (id : ℕ) (ps : List Pair) (cs : List (List ℕ))
    → id < 65536
    → length (encode_params ps) < 65536
    → All Short cs
    → All IsRecord (request_records id ps (reads cs eof)).0
unfolding request_records send_stdin send_params begin_request
request_records-IsRecord id ps cs i short chunks = (
  record_of-IsRecord 1 id _ (omega arith) i (omega arith),
  (
    record_of-IsRecord 4 id (encode_params ps) (omega arith) i short,
    (
      record_of-IsRecord 4 id [] (omega arith) i (omega arith),
      stdin_chunks-IsRecord id cs i chunks,
    ),
  ),
)

stream-request_records :
    (id : ℕ) (ps : List Pair) (cs : List (List ℕ))
    → (stream 4 (map sent (request_records id ps (reads cs eof)).0) ≡ encode_params ps)
      × (stream 5 (map sent (request_records id ps (reads cs eof)).0) ≡ concat cs)
unfolding request_records send_stdin send_params begin_request stream
stream-request_records id ps cs = (
  ap (λ s. encode_params ps ++ s) (stream_params id cs) ∙ append-nil (encode_params ps),
  stream_stdin id cs,
)

-- A request whose parameters take less than 65536 bytes: the server that reads its bytes receives the
-- parameters, in the order in which they were written, and as the body the chunks of the reader, one
-- after the other.
pub received-request_bytes :
    (id : ℕ) (ps : List Pair) (cs : List (List ℕ))
    → id < 65536
    → All Fits ps
    → length (encode_params ps) < 65536
    → All Short cs
    → received (request_bytes id ps (reads cs eof)) ≡ some (some ps, concat cs)
unfolding request_bytes
received-request_bytes id ps cs i fits short chunks =
    let rs = (request_records id ps (reads cs eof)).0 in
    let read =
      decode_all-encode_all (length (encode_all rs)) rs
        (request_records-IsRecord id ps cs i short chunks) (omega arith) in
    let (params, body) = stream-request_records id ps cs in
    let pairs : decode_params (stream 4 (map sent rs)) ≡ some ps =
      ap decode_params params ∙ decode_params-encode_params ps fits in
    received_of (encode_all rs) (map sent rs) (some ps) (concat cs) read pairs body
