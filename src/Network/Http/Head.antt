-- ===== src/Network/Http/Head.antt =====
-- The head of an HTTP/1.1 request: the request line and the header lines. The loop over the header
-- lines has as fuel the length of what is left.
use realm_mesh.Prelude.{
  ℕ, zero, suc, ◌+◌, ◌-◌, ◌*◌, ◌/◌, ◌%◌, ◌^◌, List, [], ◌∷◌, ◌++◌, not, ◌||◌, ltb, ◌==◌,
  if◌then◌else◌, Option, none, some, Text, codes, text_eq, all_of, in_range, length, take, drop,
  get_or,
}
use realm_mesh.Network.Http.Lexing.{
  is_tchar, is_valid_value_char, lowercase, is_blank, trim_sp_htab, find_text, find_from,
}

pub data Http1ParseStatus : Type 0 where
  need_more_data request_ready bad_request payload_too_large headers_too_large
        version_not_supported :
      Http1ParseStatus

pub record Http1Request : Type 0 where
  pub method : Text
  pub target : Text
  pub headers : List (Text × Text)
  pub body : Text

pub record Http1ParseResult : Type 0 where
  pub status : Http1ParseStatus
  pub request : Option Http1Request

-- What the loop over the header lines has found so far.
pub record HeadFields : Type 0 where
  pub headers : List (Text × Text)
  pub content_length : ℕ
  pub host_count : ℕ
  pub content_length_count : ℕ

pub data HeadResult : Type 0 where
  rejected : Http1ParseStatus → HeadResult
  accepted : Http1Request → ℕ → HeadResult

abbrev pub crlf : Text
crlf = 13 ∷ 10 ∷ []

-- The loop over the digits of a length.
unfoldable pub parse_digits : ℕ → Text → Option ℕ
parse_digits parsed [] = some parsed
parse_digits parsed (digit ∷ digits) =
    let rest = parse_digits ((parsed * 10 + (digit - 48)) % 2 ^ 64) digits in
    if not (in_range 48 57 digit) || ltb ((18_446_744_073_709_551_615 - (digit - 48)) / 10) parsed
    then none
    else rest

unfoldable pub parse_length : Text → Option ℕ
unfolding parse_digits
parse_length value =
    if length value == 0 || ltb 20 (length value) then none else parse_digits 0 value

abbrev pub with_length : HeadFields → Option ℕ → Option HeadFields
with_length fields none = none
with_length fields (some n) =
    some
      (record fields { content_length = n; content_length_count = fields.content_length_count + 1 })

abbrev pub with_header : Text → Text → Option HeadFields → Option HeadFields
with_header name value none = none
with_header name value (some fields) =
    some (record fields { headers = fields.headers ++ (name, value) ∷ [] })

-- A header by its normalized name.
unfoldable pub take_header : HeadFields → Text → Text → Option HeadFields
unfolding parse_length text_eq
take_header fields name value =
    if text_eq name (codes "transfer-encoding")
    then none
    else with_header name value (
        if text_eq name (codes "host")
        then some (record fields { host_count = fields.host_count + 1 })
        else if text_eq name (codes "content-length")
        then with_length fields (parse_length value)
        else some fields)

-- A header line around the colon.
abbrev pub split_header : HeadFields → Text → Option ℕ → Option HeadFields
split_header fields line none = none
split_header fields line (some colon) =
    let name = take colon line in
    let value = trim_sp_htab (drop (colon + 1) line) in
    if colon == 0
      || is_blank (get_or line (colon - 1) 0)
      || not (all_of is_tchar name)
      || not (all_of is_valid_value_char value)
    then none
    else take_header fields (lowercase name) value

unfoldable pub parse_line : HeadFields → Text → Option HeadFields
unfolding take_header lowercase is_tchar is_valid_value_char trim_sp_htab find_text all_of
parse_line fields line =
    if is_blank (get_or line 0 0) then none else split_header fields line (find_text (58 ∷ []) line)

abbrev pub go_on :
    (HeadFields → Text → Option HeadFields) → Text → Option HeadFields → Option HeadFields
go_on continue rest none = none
go_on continue rest (some fields) = continue fields rest

abbrev pub parse_next :
    (HeadFields → Text → Option HeadFields) → HeadFields → Text → Option ℕ → Option HeadFields
parse_next continue fields rest none = none
parse_next continue fields rest (some line_end) =
    let line = take line_end rest in
    if length line == 0
    then some fields
    else go_on continue (drop (line_end + 2) rest) (parse_line fields line)

-- The loop over the header lines.
unfoldable pub parse_fields : ℕ → HeadFields → Text → Option HeadFields
unfolding parse_line find_text
parse_fields fuel fields [] = some fields
parse_fields zero fields (c ∷ rest) = none
parse_fields (suc fuel) fields (c ∷ rest) =
    parse_next (parse_fields fuel) fields (c ∷ rest) (find_text crlf (c ∷ rest))

abbrev pub no_fields : HeadFields
no_fields = record { headers = []; content_length = 0; host_count = 0; content_length_count = 0 }

-- The checks behind the loop.
abbrev pub finish_head : ℕ → Text → Text → Option HeadFields → HeadResult
finish_head max_body_bytes method target none = rejected bad_request
finish_head max_body_bytes method target (some fields) =
    if not (fields.host_count == 1) || ltb 1 fields.content_length_count
    then rejected bad_request
    else if ltb max_body_bytes fields.content_length
    then rejected payload_too_large
    else accepted (record { method = method; target = target; headers = fields.headers; body = [] })
        fields.content_length

-- The checks of the request line, and the header lines behind it.
unfoldable pub parse_request : ℕ → Text → Text → Text → Text → HeadResult
unfolding parse_fields is_tchar text_eq all_of
parse_request max_body_bytes method target version rest =
    if not (text_eq version (codes "HTTP/1.1"))
    then rejected version_not_supported
    else if length method == 0 || not (all_of is_tchar method) || not (get_or target 0 0 == 47)
    then rejected bad_request
    else finish_head max_body_bytes method target (parse_fields (length rest) no_fields rest)

abbrev pub space : Text
space = 32 ∷ []

-- The request line by its first, second and third space.
abbrev pub split_request : ℕ → Text → Text → ℕ → Option ℕ → Option ℕ → HeadResult
split_request max_body_bytes line rest first (some second) none =
    parse_request max_body_bytes (take first line)
      (take (second - first - 1) (drop (first + 1) line)) (drop (second + 1) line) rest
split_request max_body_bytes line rest first none third = rejected bad_request
split_request max_body_bytes line rest first (some second) (some third) = rejected bad_request

abbrev pub third_space : Text → Option ℕ → Option ℕ
third_space line none = none
third_space line (some second) = find_from space line (second + 1)

abbrev pub split_line : ℕ → Text → Text → Option ℕ → HeadResult
split_line max_body_bytes line rest none = rejected bad_request
split_line max_body_bytes line rest (some first) =
    let second = find_from space line (first + 1) in
    split_request max_body_bytes line rest first second (third_space line second)

abbrev pub split_head : ℕ → Text → Option ℕ → HeadResult
split_head max_body_bytes head none = rejected bad_request
split_head max_body_bytes head (some line_end) =
    let line = take line_end head in
    split_line max_body_bytes line (drop (line_end + 2) head) (find_text space line)

unfoldable pub parse_head : ℕ → Text → HeadResult
unfolding parse_request find_text
parse_head max_body_bytes head = split_head max_body_bytes head (find_text crlf head)
