-- ===== src/Network/Http/Chunks.antt =====
-- The parser on a list of bytes, and what it makes of bytes that come in pieces.
use realm_mesh.Prelude.{
  ℕ, ◌+◌, ◌-◌, ◌≤◌, ◌≡◌, refl, sym, ap, min, List, ◌++◌, Bool, true, false, ltb, ◌==◌,
  if◌then◌else◌, Option, none, some, length, take, drop, ok, ◌>>=◌, arith, Bool-cases, inl, inr,
  subst,
}
use realm_mesh.Network.Framing.{ByteBuffer, readable_data}
use realm_mesh.Network.Framing.Buffer.{IsBuffer, consume_lem}
use realm_mesh.Network.Http.{
  need_more_data, headers_too_large, Http1Request, Http1ParseResult, HeadResult, rejected, accepted,
  Phase, head_phase, body_phase, Http1Parser, no_request, Parsed, status_only, ready, body_taken,
  consume_body, head_taken, head_terminator, parse_found, try_phase, try_parse, parse_head,
}
use realm_mesh.Network.Http.Lexing.{find_text}
use realm_mesh.Network.Http.Search.{find_text_bound}

-- The parser, the bytes that are left, and what was found.
abbrev pub Outcome : Type 0
Outcome = Http1Parser × List ℕ × Http1ParseResult

abbrev pub body_bytes : Http1Parser → List ℕ → Outcome
body_bytes p bytes =
    let count = min (length bytes) p.body_remaining in
    let request = record p.pending_request { body = p.pending_request.body ++ take count bytes } in
    let left = p.body_remaining - count in
    if ltb 0 left
    then (
      record p { body_remaining = left; pending_request = request },
      drop count bytes,
      status_only need_more_data,
    )
    else (
      record p { phase = head_phase; body_remaining = left; pending_request = no_request },
      drop count bytes,
      ready request,
    )

abbrev pub body_start : Http1Parser → Http1Request → ℕ → Http1Parser
body_start p request n = record p {
  phase = body_phase;
  body_remaining = n;
  pending_request = request;
}

abbrev pub head_bytes : Http1Parser → List ℕ → ℕ → HeadResult → Outcome
head_bytes p bytes size (rejected status) = (p, bytes, status_only status)
head_bytes p bytes size (accepted request n) =
    if n == 0
    then (p, drop size bytes, ready request)
    else body_bytes (body_start p request n) (drop size bytes)

abbrev pub found_bytes : Http1Parser → List ℕ → Option ℕ → Outcome
found_bytes p bytes none = (
  p,
  bytes,
  status_only (if ltb p.max_head_bytes (length bytes) then headers_too_large else need_more_data),
)
found_bytes p bytes (some i) =
    if ltb p.max_head_bytes (i + 4)
    then (p, bytes, status_only headers_too_large)
    else head_bytes p bytes (i + 4) (parse_head p.max_body_bytes (take (i + 4) bytes))

abbrev pub phase_bytes : Phase → Http1Parser → List ℕ → Outcome
phase_bytes body_phase p bytes = body_bytes p bytes
phase_bytes head_phase p bytes = found_bytes p bytes (find_text head_terminator bytes)

-- The parser on the bytes of a buffer.
abbrev pub parse_bytes : Http1Parser → List ℕ → Outcome
parse_bytes p bytes = phase_bytes p.phase p bytes

-- A run of the parser on a buffer that ends as `o` says.
abbrev pub Shows : Parsed → Outcome → Type 0
Shows out o = (c : ByteBuffer) × (out ≡ ok (o.0, c, o.2)) × IsBuffer c × (readable_data c ≡ o.1)

Shows-choice :
    (test : Bool) (c : ByteBuffer) (rest : List ℕ) (p q : Http1Parser) (r t : Http1ParseResult)
    → IsBuffer c
    → readable_data c ≡ rest
    → Shows
        (if test then ok (p, c, r) else ok (q, c, t))
        (if test then (p, rest, r) else (q, rest, t))
Shows-choice true c rest p q r t h e = (c, refl, h, e)
Shows-choice false c rest p q r t h e = (c, refl, h, e)

consume_body-Shows :
    (p : Http1Parser) (b : ByteBuffer)
    → IsBuffer b
    → Shows (consume_body p b) (body_bytes p (readable_data b))
unfolding consume_body
consume_body-Shows p b h =
    let bytes = readable_data b in
    let count = min (length bytes) p.body_remaining in
    let (c, e, is_buffer, rest) = consume_lem b count h (omega arith) in
    subst (λ out. Shows out (body_bytes p bytes)) (sym (ap (λ r. r >>= body_taken p bytes count) e))
      (Shows-choice (ltb 0 (p.body_remaining - count)) c (drop count bytes) _ _ _ _ is_buffer rest)

head_taken-Shows :
    (p : Http1Parser) (b : ByteBuffer) (size : ℕ) (found : HeadResult)
    → IsBuffer b
    → size ≤ length (readable_data b)
    → Shows (head_taken p b size found) (head_bytes p (readable_data b) size found)
head_taken-Shows p b size (rejected status) h fits = (b, refl, h, refl)
head_taken-Shows p b size (accepted request n) h fits =
    let bytes = readable_data b in
    let (c, e, is_buffer, rest) = consume_lem b size h fits in
    let goes : ByteBuffer → Parsed =
      λ d. if n == 0 then ok (p, d, ready request) else consume_body (body_start p request n) d in
    subst (λ out. Shows out (head_bytes p bytes size (accepted request n)))
      (sym (ap (λ r. r >>= goes) e))
      (elim (Bool-cases (n == 0)) [
        | inl none_left ↦ rw none_left (c, refl, is_buffer, rest)
        | inr some_left ↦ rw some_left (
            subst
              (λ l.
                Shows (consume_body (body_start p request n) c)
                  (body_bytes (body_start p request n) l))
              rest (consume_body-Shows (body_start p request n) c is_buffer))
      ])

parse_found-Shows :
    (p : Http1Parser) (b : ByteBuffer) (found : Option ℕ)
    → IsBuffer b
    → find_text head_terminator (readable_data b) ≡ found
    → Shows (parse_found p b (readable_data b) found) (found_bytes p (readable_data b) found)
parse_found-Shows p b none h e = (b, refl, h, refl)
parse_found-Shows p b (some i) h e =
    let bytes = readable_data b in
    elim (Bool-cases (ltb p.max_head_bytes (i + 4))) [
      | inl large ↦ rw large (b, refl, h, refl)
      | inr small ↦ rw small (
          head_taken-Shows p b (i + 4) (parse_head p.max_body_bytes (take (i + 4) bytes)) h
            (find_text_bound head_terminator bytes i e))
    ]

try_phase-Shows :
    (phase : Phase) (p : Http1Parser) (b : ByteBuffer)
    → IsBuffer b
    → Shows (try_phase phase p b) (phase_bytes phase p (readable_data b))
try_phase-Shows body_phase p b h = consume_body-Shows p b h
try_phase-Shows head_phase p b h =
    parse_found-Shows p b (find_text head_terminator (readable_data b)) h refl

-- The parser on a buffer does to the bytes that are not consumed what `parse_bytes` does, and never
-- consumes more than there are: it does not throw.
pub try_parse-parse_bytes :
    (p : Http1Parser) (b : ByteBuffer)
    → IsBuffer b
    → Shows (try_parse p b) (parse_bytes p (readable_data b))
unfolding try_parse
try_parse-parse_bytes p b h = try_phase-Shows p.phase p b h
