-- ===== src/Witnesses/Traffic.antt =====
-- The path parser and the FastCGI protocol at concrete inputs.
use go_php.Prelude.{ℕ, ◌≡◌, refl, false, List, [], ◌∷◌, ◌++◌, length, map, some, All, arith, ◌<◌}
use go_php.Prelude.Int.{pos, negsuc}
use go_php.Gateway.FastCgi.Record.{
  Record, encode_record, decode_record, sent, decode_record-encode_record,
}
use go_php.Gateway.FastCgi.Params.{Pair, encode_params, encode_pair}
use go_php.Gateway.FastCgi.Length.{encode_length}
use go_php.Gateway.FastCgi.Request.{reads, eof, encode_all, request_bytes}
use go_php.Gateway.FastCgi.Request.Received.{received, received-request_bytes}
use go_php.Gateway.FastCgi.Response.{answered, Context, read_response}
use go_php.Gateway.FastCgi.Response.Laws.{Bounded, read_response-Bounded}
use go_php.Gateway.FastCgi.Response.Collects.{
  Piece, stdout, stderr, foreign, piece_record, end_record, read_response-pieces,
}
use go_php.Gateway.Path.{
  ParsedPath, accepted, has_byte, has_escape, before_query, has_control, first_bad, hex_digit,
  percent_decode, contains_percent_encoding, split_slash, move, collapse, split_and_collapse,
  join_slash, normalized, check_decoded, raw_error, parse_path,
}
use go_php.Gateway.Path.Safe.{IsSafe, parse_path-IsSafe}
use go_php.Gateway.Path.Normal.{parse_path-normalized_path}

-- A STDOUT record of three bytes for request 258.
abbrev three_bytes : Record
three_bytes = record {
  version = 1;
  type = 6;
  request_id = 258;
  content_length = 3;
  padding_length = 0;
  content = 72 ∷ 105 ∷ 33 ∷ [];
}

decode_record-encode_record_example :
    decode_record (encode_record three_bytes ++ 1 ∷ 6 ∷ []) ≡ some (sent three_bytes, 1 ∷ 6 ∷ [])
decode_record-encode_record_example = decode_record-encode_record three_bytes (1 ∷ 6 ∷ []) (record {
  version = omega arith;
  type = omega arith;
  request_id = omega arith;
  content_length = omega arith;
  measured = refl;
})

abbrev method : Pair
method = (77 ∷ 69 ∷ [], 80 ∷ 79 ∷ 83 ∷ 84 ∷ [])

abbrev query : Pair
query = (81 ∷ [], [])

params_short : length (encode_params (method ∷ query ∷ [])) < 65536
unfolding encode_params encode_pair encode_length
params_short = omega arith

received-request_bytes_example :
    received (request_bytes 7 (method ∷ query ∷ []) (reads ((97 ∷ 61 ∷ []) ∷ (49 ∷ []) ∷ []) eof))
    ≡ some (some (method ∷ query ∷ []), 97 ∷ 61 ∷ 49 ∷ [])
received-request_bytes_example =
    received-request_bytes 7 (method ∷ query ∷ []) ((97 ∷ 61 ∷ []) ∷ (49 ∷ []) ∷ []) (omega arith)
      ((omega arith, omega arith), ((omega arith, omega arith), tt)) params_short
      (omega arith, (omega arith, tt))

-- A context that is never done.
abbrev background : Context
background = record { before_read = λ k. false; after_error = λ k. false }

read_response-Bounded_example :
    Bounded (read_response background 1 (1 ∷ 6 ∷ 0 ∷ 1 ∷ 0 ∷ 2 ∷ 0 ∷ 0 ∷ 65 ∷ []))
read_response-Bounded_example =
    read_response-Bounded background 1 (1 ∷ 6 ∷ 0 ∷ 1 ∷ 0 ∷ 2 ∷ 0 ∷ 0 ∷ 65 ∷ [])

abbrev pieces : List Piece
pieces = stdout (72 ∷ []) ∷ stderr (33 ∷ []) ∷ foreign three_bytes ∷ stdout (105 ∷ []) ∷ []

read_response-pieces_example :
    read_response background 1 (
      encode_all (map (piece_record 1) pieces)
      ++ (encode_record (end_record 1 (255 ∷ 255 ∷ 255 ∷ 255 ∷ 0 ∷ 0 ∷ 0 ∷ 0 ∷ [])) ++ 1 ∷ []))
    ≡ answered (72 ∷ 105 ∷ []) (33 ∷ []) (negsuc 0) (pos 0)
read_response-pieces_example =
    read_response-pieces background 1 pieces 255 255 255 255 0 0 0 0 (1 ∷ []) (λ k. refl)
      (omega arith)
      (
        omega arith,
        (
          omega arith,
          (
            (
              record {
                version = omega arith;
                type = omega arith;
                request_id = omega arith;
                content_length = omega arith;
                measured = refl;
              },
              refl,
            ),
            (omega arith, tt),
          ),
        ),
      )
      (omega arith) (omega arith)

-- "/a/%2e%2E//b.%70hp?x=/": the dots are escaped.
abbrev target : List ℕ
target =
    47 ∷ 97 ∷ 47 ∷ 37 ∷ 50 ∷ 101 ∷ 37 ∷ 50 ∷ 69 ∷ 47 ∷ 47 ∷ 98 ∷ 46 ∷ 37 ∷ 55 ∷ 48 ∷ 104 ∷ 112 ∷ 63
    ∷ 120 ∷ 61 ∷ 47 ∷ []

abbrev raw : List ℕ
raw =
    47 ∷ 97 ∷ 47 ∷ 37 ∷ 50 ∷ 101 ∷ 37 ∷ 50 ∷ 69 ∷ 47 ∷ 47 ∷ 98 ∷ 46 ∷ 37 ∷ 55 ∷ 48 ∷ 104 ∷ 112 ∷ []

abbrev b_php : List ℕ
b_php = 98 ∷ 46 ∷ 112 ∷ 104 ∷ 112 ∷ []

abbrev parsed : ParsedPath
parsed = record {
  raw_target = target;
  raw_path = raw;
  escaped_path = raw;
  decoded_segments = b_php ∷ [];
  normalized_path = 47 ∷ b_php;
}

parse_target : parse_path target ≡ accepted parsed
unfolding parse_path raw_error has_byte has_escape before_query has_control first_bad hex_digit
    percent_decode contains_percent_encoding split_slash move collapse split_and_collapse join_slash
    normalized check_decoded
parse_target = refl

parse_path-IsSafe_example : All IsSafe (b_php ∷ []) × ((47 ∷ b_php) ≡ normalized (b_php ∷ []))
parse_path-IsSafe_example = parse_path-IsSafe target parsed parse_target

parse_path-normalized_path_example :
    (q : ParsedPath) × (parse_path (47 ∷ b_php) ≡ accepted q)
    × (q.decoded_segments ≡ b_php ∷ [])
    × (q.normalized_path ≡ 47 ∷ b_php)
parse_path-normalized_path_example = parse_path-normalized_path target parsed parse_target
