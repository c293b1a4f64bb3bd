-- ===== src/Network/Http/Tests.antt =====
-- A request that comes in two pieces.
use realm_mesh.Prelude.{
  ℕ, ◌^◌, ◌<◌, ◌≤◌, in_range, all_of, length, ◌≡◌, refl, List, [], ◌∷◌, ◌++◌, true, false, some,
  codes, ok, arith,
}
use realm_mesh.Network.Framing.{ByteBuffer, append, readable_data, consume}
use realm_mesh.Network.Http.{
  Http1Request, need_more_data, head_phase, body_phase, Http1Parser, no_request, no_fields, crlf,
  parse_length, parse_fields, try_parse, wants_keep_alive, ready, status_only,
}
use realm_mesh.Network.Http.Chunks.{Outcome, Shows, parse_bytes, try_parse-parse_bytes}
use realm_mesh.Network.Http.Feeding.{try_parse-append_more, try_parse-append_settled}
use realm_mesh.Network.Http.Loops.{decimal_value, parse_fields_fuel, parse_length_value}

abbrev test_parser : Http1Parser
test_parser = record {
  phase = head_phase;
  max_head_bytes = 64;
  max_body_bytes = 4;
  body_remaining = 0;
  pending_request = no_request;
}

abbrev test_head : List ℕ
test_head =
    codes "GET / HTTP/1.1"
    ++ crlf
    ++ codes "Host:a"
    ++ crlf
    ++ codes "Content-Length: 2"
    ++ crlf
    ++ crlf

abbrev test_buffer : ByteBuffer
test_buffer = record { storage = test_head ++ codes "h"; read_offset = 0 }

-- What is waited for after the head and the first byte of the body.
abbrev waiting_parser : Http1Parser
waiting_parser = record {
  phase = body_phase;
  max_head_bytes = 64;
  max_body_bytes = 4;
  body_remaining = 1;
  pending_request = record {
    method = codes "GET";
    target = codes "/";
    headers = (codes "host", codes "a") ∷ (codes "content-length", codes "2") ∷ [];
    body = codes "h";
  };
}

abbrev empty_buffer : ByteBuffer
empty_buffer = record { storage = []; read_offset = 0 }

abbrev test_request : Http1Request
test_request = record waiting_parser.pending_request { body = codes "hi" }

first_piece :
    try_parse test_parser test_buffer
    ≡ ok (waiting_parser, empty_buffer, status_only need_more_data)
unfolding try_parse readable_data consume
first_piece = refl

second_piece :
    try_parse waiting_parser (append empty_buffer (codes "iX"))
    ≡ ok (test_parser, record { storage = codes "iX"; read_offset = 1 }, ready test_request)
unfolding try_parse consume append readable_data
second_piece = refl

try_parse-parse_bytes_example :
    Shows (try_parse test_parser test_buffer) (parse_bytes test_parser (readable_data test_buffer))
try_parse-parse_bytes_example = try_parse-parse_bytes test_parser test_buffer (omega arith)

try_parse-append_more_example :
    (o : Outcome) × Shows (try_parse waiting_parser (append empty_buffer (codes "iX"))) o
    × Shows (try_parse test_parser (append test_buffer (codes "iX"))) o
try_parse-append_more_example =
    try_parse-append_more test_parser waiting_parser test_buffer empty_buffer
      (status_only need_more_data) (codes "iX") (omega arith) first_piece refl

abbrev small_buffer : ByteBuffer
small_buffer = record { storage = codes "i"; read_offset = 0 }

last_piece :
    try_parse waiting_parser small_buffer ≡ ok (test_parser, empty_buffer, ready test_request)
unfolding try_parse consume readable_data
last_piece = refl

try_parse-append_settled_example :
    Shows
      (try_parse waiting_parser (append small_buffer (codes "XY")))
      (test_parser, readable_data empty_buffer ++ codes "XY", ready test_request)
try_parse-append_settled_example =
    try_parse-append_settled waiting_parser test_parser small_buffer empty_buffer
      (ready test_request) (codes "XY") (omega arith) last_piece refl

parse_fields_fuel_example :
    parse_fields 10 no_fields (codes "Host:a" ++ crlf)
    ≡ parse_fields 8 no_fields (codes "Host:a" ++ crlf)
parse_fields_fuel_example =
    parse_fields_fuel 10 8 no_fields (codes "Host:a" ++ crlf) (omega arith) (omega arith)

twelve : parse_length (codes "12") ≡ some 12
unfolding parse_length
twelve = refl

parse_length_value_example :
    (12 ≡ decimal_value 0 (codes "12"))
    × (12 < 2 ^ 64)
    × (all_of (in_range 48 57) (codes "12") ≡ true)
    × (1 ≤ length (codes "12"))
    × (length (codes "12") ≤ 20)
parse_length_value_example = parse_length_value (codes "12") 12 twelve

keeps : wants_keep_alive test_request ≡ true
unfolding wants_keep_alive
keeps = refl

closes :
    wants_keep_alive
      (record test_request { headers = (codes "connection", codes "a , Close") ∷ [] })
    ≡ false
unfolding wants_keep_alive
closes = refl
