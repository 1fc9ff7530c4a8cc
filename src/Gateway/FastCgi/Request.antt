-- ===== src/Gateway/FastCgi/Request.antt =====
-- What `Execute` writes: BEGIN_REQUEST, the PARAMS stream and the STDIN stream. The writes succeed, and
-- the body is what the reader delivers, chunk by chunk.
pub mod Received
use go_php.Prelude.{ℕ, ◌+◌, ◌%◌, List, [], ◌∷◌, ◌++◌, length, String, Option, none, some}
use go_php.Gateway.FastCgi.Record.{Record, encode_record}
use go_php.Gateway.FastCgi.Params.{Pair, encode_params}

-- uint16(n)
abbrev pub uint16 : ℕ → ℕ
uint16 n = n % 65536

abbrev pub record_of : ℕ → ℕ → List ℕ → Record
record_of type id content = record {
  version = 1;
  type = type;
  request_id = id;
  content_length = uint16 (length content);
  padding_length = 0;
  content = content;
}

-- The role of a responder stands in the first two bytes, and the flag to keep the connection in the
-- fifth.
unfoldable pub begin_request : ℕ → Record
begin_request id = record_of 1 id (0 ∷ 1 ∷ 0 ∷ 0 ∷ 1 ∷ 0 ∷ 0 ∷ 0 ∷ [])

unfoldable pub send_params : ℕ → List Pair → List Record
send_params id ps = record_of 4 id (encode_params ps) ∷ record_of 4 id [] ∷ []

-- How the reader ends: at EOF, or with an error.
pub data ReadEnd : Type 0 where
  eof : ReadEnd
  read_error : String → ReadEnd

-- The body: none, or the chunks of 1 to 65535 bytes that Read gives and how it ends.
pub data Body : Type 0 where
  no_body : Body
  reads : List (List ℕ) → ReadEnd → Body

abbrev stdin_chunks : ℕ → List (List ℕ) → List Record
stdin_chunks id [] = []
stdin_chunks id (c ∷ cs) = record_of 5 id c ∷ stdin_chunks id cs

-- The records that are written, and the error that ends it.
unfoldable pub send_stdin : ℕ → Body → List Record × Option String
send_stdin id no_body = (record_of 5 id [] ∷ [], none)
send_stdin id (reads cs eof) = (stdin_chunks id cs ++ record_of 5 id [] ∷ [], none)
send_stdin id (reads cs (read_error e)) = (stdin_chunks id cs, some e)

unfoldable pub request_records : ℕ → List Pair → Body → List Record × Option String
request_records id ps body =
    let (stdin, error) = send_stdin id body in
    (begin_request id ∷ (send_params id ps ++ stdin), error)

unfoldable pub encode_all : List Record → List ℕ
encode_all [] = []
encode_all (r ∷ rs) = encode_record r ++ encode_all rs

-- c.nextID, which wraps, and the request's bytes.
unfoldable pub next_id : ℕ → ℕ
next_id id = uint16 (id + 1)

unfoldable pub request_bytes : ℕ → List Pair → Body → List ℕ
request_bytes id ps body = encode_all (request_records id ps body).0
