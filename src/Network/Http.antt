-- ===== src/Network/Http.antt =====
-- framework/network/src/http/http1_parser.cpp: the parser of HTTP/1.1 requests. A byte, or a character,
-- is a number below 256. The loop over the header lines has as fuel the length of what is left.
pub mod Head
pub mod Lexing
pub mod Search
pub mod Chunks
pub mod Pieces
pub mod Feeding
pub mod Headers
pub mod Lines
pub mod Requests
pub mod Loops
mod Tests
unfoldable pub use Head.*
use realm_mesh.Prelude.{
  ℕ, zero, suc, ◌+◌, ◌-◌, ◌*◌, ◌/◌, ◌%◌, ◌^◌, min, List, [], ◌∷◌, ◌++◌, Bool, true, false, not,
  ◌&&◌, ◌||◌, leb, ltb, ◌==◌, if◌then◌else◌, Option, none, some, Text, codes, text_eq, all_of,
  in_range, length, take, drop, get_or, Result, ok, ◌>>=◌,
}
use realm_mesh.Network.Framing.{ByteBuffer, readable_data, consume}
use realm_mesh.Network.Http.Lexing.{
  is_tchar, is_valid_value_char, lowercase, equals_ignore_case, is_blank, trim_sp_htab, find_text,
  find_from,
}

abbrev pub until : Text → Option ℕ → Text
until text none = text
until text (some place) = take place text

abbrev pub after : Text → Option ℕ → Text
after text none = []
after text (some place) = drop (place + 1) text

-- The loop of `wants_keep_alive` over the tokens.
unfoldable pub keeps_alive : ℕ → Text → Bool
unfolding find_text equals_ignore_case trim_sp_htab
keeps_alive fuel [] = true
keeps_alive zero (c ∷ tokens) = true
keeps_alive (suc fuel) (c ∷ tokens) =
    let comma = find_text (44 ∷ []) (c ∷ tokens) in
    let others = keeps_alive fuel (after (c ∷ tokens) comma) in
    if equals_ignore_case (trim_sp_htab (until (c ∷ tokens) comma)) (codes "close")
    then false
    else others

abbrev pub connection_allows : Option Text → Bool
connection_allows none = true
connection_allows (some connection) = keeps_alive (length connection) connection

-- `Http1Request::header`
unfoldable pub header : List (Text × Text) → Text → Option Text
unfolding equals_ignore_case
header [] name = none
header ((key, value) ∷ headers) name =
    if equals_ignore_case key name then some value else header headers name

unfoldable pub wants_keep_alive : Http1Request → Bool
unfolding header keeps_alive
wants_keep_alive request = connection_allows (header request.headers (codes "connection"))

pub data Phase : Type 0 where
  head_phase body_phase : Phase

pub record Http1Parser : Type 0 where
  pub phase : Phase
  pub max_head_bytes : ℕ
  pub max_body_bytes : ℕ
  pub body_remaining : ℕ
  pub pending_request : Http1Request

abbrev pub no_request : Http1Request
no_request = record { method = []; target = []; headers = []; body = [] }

-- Where a step of the parser ends. A request that was moved out leaves an empty one, which is not read.
abbrev pub Parsed : Type 0
Parsed = Result (Http1Parser × ByteBuffer × Http1ParseResult)

abbrev pub status_only : Http1ParseStatus → Http1ParseResult
status_only status = record { status = status; request = none }

abbrev pub ready : Http1Request → Http1ParseResult
ready request = record { status = request_ready; request = some request }

-- `consume_body` behind the reading of the buffer.
abbrev pub body_taken : Http1Parser → List ℕ → ℕ → ByteBuffer → Parsed
body_taken p bytes count b =
    let request = record p.pending_request { body = p.pending_request.body ++ take count bytes } in
    let left = p.body_remaining - count in
    if ltb 0 left
    then ok (
      record p { body_remaining = left; pending_request = request },
      b,
      status_only need_more_data,
    )
    else ok (
      record p { phase = head_phase; body_remaining = left; pending_request = no_request },
      b,
      ready request,
    )

unfoldable pub consume_body : Http1Parser → ByteBuffer → Parsed
consume_body p b =
    let bytes = readable_data b in
    let count = min (length bytes) p.body_remaining in consume b count >>= body_taken p bytes count

-- `try_parse` with a head that is complete.
abbrev pub head_taken : Http1Parser → ByteBuffer → ℕ → HeadResult → Parsed
head_taken p b head_size (rejected status) = ok (p, b, status_only status)
head_taken p b head_size (accepted request content_length) = consume b head_size >>= λ rest.
    if content_length == 0
    then ok (p, rest, ready request)
    else consume_body
        (record p {
          phase = body_phase;
          body_remaining = content_length;
          pending_request = request;
        })
        rest

abbrev pub head_terminator : List ℕ
head_terminator = 13 ∷ 10 ∷ 13 ∷ 10 ∷ []

abbrev pub parse_found : Http1Parser → ByteBuffer → List ℕ → Option ℕ → Parsed
parse_found p b bytes none = ok (
  p,
  b,
  status_only (if ltb p.max_head_bytes (length bytes) then headers_too_large else need_more_data),
)
parse_found p b bytes (some terminator) =
    let head_size = terminator + 4 in
    if ltb p.max_head_bytes head_size
    then ok (p, b, status_only headers_too_large)
    else head_taken p b head_size (parse_head p.max_body_bytes (take head_size bytes))

abbrev pub try_phase : Phase → Http1Parser → ByteBuffer → Parsed
try_phase body_phase p b = consume_body p b
try_phase head_phase p b =
    parse_found p b (readable_data b) (find_text head_terminator (readable_data b))

unfoldable pub try_parse : Http1Parser → ByteBuffer → Parsed
unfolding consume_body parse_head find_text
try_parse p b = try_phase p.phase p b

-- `max_input_bytes`
pub max_input_bytes : Http1Parser → ℕ
max_input_bytes p = (p.max_head_bytes + p.max_body_bytes) % 2 ^ 64
