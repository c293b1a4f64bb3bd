-- ===== src/Network/Http/Feeding.antt =====
-- The outcome of the parser does not depend on where the bytes are cut.
use realm_mesh.Prelude.{
  ℕ, ◌+◌, ◌-◌, ◌≤◌, ◌<◌, ◌≡◌, refl, sym, ◌∙◌, ap, min, List, ◌++◌, true, false, ltb, ◌==◌,
  if◌then◌else◌, Option, none, some, length, take, drop, length-append, ok, arith, Bool-cases, inl,
  inr, subst, either,
}
use realm_mesh.Network.Framing.{ByteBuffer, readable_data, append}
use realm_mesh.Network.Framing.Buffer.{IsBuffer, append-readable, append-IsBuffer, drop-append}
use realm_mesh.Network.Http.{
  Http1ParseStatus, need_more_data, request_ready, bad_request, payload_too_large,
  version_not_supported, headers_too_large, Http1ParseResult, HeadResult, rejected, accepted, Phase,
  head_phase, body_phase, Http1Parser, no_request, status_only, ready, head_terminator, try_parse,
  parse_head,
}
use realm_mesh.Network.Http.Lexing.{find_text}
use realm_mesh.Network.Http.Search.{find_text_bound, find_text-append, find_text_prefix}
use realm_mesh.Network.Http.Chunks.{
  Outcome, body_bytes, body_start, head_bytes, found_bytes, phase_bytes, parse_bytes, Shows,
  try_parse-parse_bytes,
}
use realm_mesh.Network.Http.Pieces.{is_more, feed, body_more, body_settled, take-append}

body_bytes-feed :
    (p : Http1Parser) (xs ys : List ℕ)
    → p.phase ≡ body_phase
    → body_bytes p (xs ++ ys) ≡ feed (body_bytes p xs) ys
body_bytes-feed p xs ys e =
    let count = min (length xs) p.body_remaining in
    let body = record p.pending_request { body = p.pending_request.body ++ take count xs } in
    let left = p.body_remaining - count in
    let q : Http1Parser = record p { body_remaining = left; pending_request = body } in
    let more : Outcome = (q, drop count xs, status_only need_more_data) in
    let last : Outcome = (
      record p { phase = head_phase; body_remaining = left; pending_request = no_request },
      drop count xs,
      ready body,
    ) in
    either (λ (o : Outcome). body_bytes p (xs ++ ys) ≡ feed o ys) (ltb 0 left) more last
      (λ short.
        sym (body_more p xs ys (ground arith))
        ∙ sym (ap (λ f. phase_bytes f q (drop count xs ++ ys)) e))
      (λ enough.
        body_settled p xs ys (ground arith)
        ∙ ap (λ t. let o : Outcome = if t then more else last in (o.0, o.1 ++ ys, o.2)) enough)

-- An outcome that consumes nothing.
unconsumed :
    (p : Http1Parser) (xs ys : List ℕ) (status : Http1ParseStatus)
    → parse_bytes p (xs ++ ys) ≡ (p, xs ++ ys, status_only status)
    → parse_bytes p (xs ++ ys) ≡ feed (p, xs, status_only status) ys
unconsumed p xs ys need_more_data e = refl
unconsumed p xs ys request_ready e = e
unconsumed p xs ys bad_request e = e
unconsumed p xs ys payload_too_large e = e
unconsumed p xs ys headers_too_large e = e
unconsumed p xs ys version_not_supported e = e

head_bytes-feed :
    (p : Http1Parser) (xs ys : List ℕ) (size : ℕ) (found : HeadResult)
    → size ≤ length xs
    → parse_bytes p (xs ++ ys) ≡ head_bytes p (xs ++ ys) size found
    → parse_bytes p (xs ++ ys) ≡ feed (head_bytes p xs size found) ys
head_bytes-feed p xs ys size (rejected status) fits e = unconsumed p xs ys status e
head_bytes-feed p xs ys size (accepted request n) fits e =
    let start = body_start p request n in
    let rest = drop-append size xs ys fits in
    let empty_body : List ℕ → Outcome = λ l. (p, l, ready request) in
    either (λ (o : Outcome). parse_bytes p (xs ++ ys) ≡ feed o ys) (n == 0)
      (empty_body (drop size xs)) (body_bytes start (drop size xs))
      (λ no_body.
        e
        ∙ ap
            (λ t.
              if t
              then empty_body (drop size (xs ++ ys))
              else body_bytes start (drop size (xs ++ ys)))
            no_body
        ∙ ap empty_body rest)
      (λ some_body.
        e
        ∙ ap
            (λ t.
              if t
              then empty_body (drop size (xs ++ ys))
              else body_bytes start (drop size (xs ++ ys)))
            some_body
        ∙ ap (body_bytes start) rest
        ∙ body_bytes-feed start (drop size xs) ys refl)

-- A head that is too large before its end stays so.
too_large_stays :
    (p : Http1Parser) (xs ys : List ℕ) (found : Option ℕ)
    → find_text head_terminator xs ≡ none
    → find_text head_terminator (xs ++ ys) ≡ found
    → p.max_head_bytes < length xs
    → found_bytes p (xs ++ ys) found ≡ (p, xs ++ ys, status_only headers_too_large)
too_large_stays p xs ys none e f large =
    let test : ltb p.max_head_bytes (length (xs ++ ys)) ≡ true =
      ground (arith, length-append xs ys, large) in
    ap (λ t. (p, xs ++ ys, status_only (if t then headers_too_large else need_more_data))) test
too_large_stays p xs ys (some i) e f large =
    let zs = xs ++ ys in
    let test : ltb p.max_head_bytes (i + 4) ≡ true =
      elim (Bool-cases (ltb p.max_head_bytes (i + 4))) [
        | inl t ↦ t
        | inr t ↦
            let short : i + 4 ≤ length xs = ground (arith, large) in
            let wrong = sym e ∙ find_text_prefix head_terminator xs ys i f short (omega arith) in cc
      ] in
    ap
      (λ t.
        if t
        then (p, zs, status_only headers_too_large)
        else head_bytes p zs (i + 4) (parse_head p.max_body_bytes (take (i + 4) zs)))
      test

found_bytes-feed :
    (p : Http1Parser) (xs ys : List ℕ) (found : Option ℕ)
    → p.phase ≡ head_phase
    → find_text head_terminator xs ≡ found
    → parse_bytes p (xs ++ ys) ≡ feed (found_bytes p xs found) ys
found_bytes-feed p xs ys none e f =
    let whole = ap (λ g. phase_bytes g p (xs ++ ys)) e in
    either
      (λ (status : Http1ParseStatus).
        parse_bytes p (xs ++ ys) ≡ feed (p, xs, status_only status) ys)
      (ltb p.max_head_bytes (length xs)) headers_too_large need_more_data
      (λ large.
        whole
        ∙ too_large_stays p xs ys (find_text head_terminator (xs ++ ys)) f refl (ground arith))
      (λ small. refl)
found_bytes-feed p xs ys (some i) e f =
    let zs = xs ++ ys in
    let fits = find_text_bound head_terminator xs i f in
    let parsed : List ℕ → Outcome = λ head.
      if ltb p.max_head_bytes (i + 4)
      then (p, zs, status_only headers_too_large)
      else head_bytes p zs (i + 4) (parse_head p.max_body_bytes head) in
    let whole : parse_bytes p zs ≡ parsed (take (i + 4) xs) =
      ap (λ g. phase_bytes g p zs) e
      ∙ ap (found_bytes p zs) (find_text-append head_terminator xs ys i f)
      ∙ ap parsed (take-append (i + 4) xs ys fits) in
    let head = parse_head p.max_body_bytes (take (i + 4) xs) in
    either (λ (o : Outcome). parse_bytes p zs ≡ feed o ys) (ltb p.max_head_bytes (i + 4))
      (p, xs, status_only headers_too_large) (head_bytes p xs (i + 4) head)
      (λ large.
        whole
        ∙ ap
            (λ t.
              if t then (p, zs, status_only headers_too_large) else head_bytes p zs (i + 4) head)
            large)
      (λ small. head_bytes-feed p xs ys (i + 4) head fits (
        whole
        ∙ ap
            (λ t.
              if t then (p, zs, status_only headers_too_large) else head_bytes p zs (i + 4) head)
            small))

phase_bytes-feed :
    (phase : Phase) (p : Http1Parser) (xs ys : List ℕ)
    → p.phase ≡ phase
    → parse_bytes p (xs ++ ys) ≡ feed (phase_bytes phase p xs) ys
phase_bytes-feed body_phase p xs ys e =
    ap (λ f. phase_bytes f p (xs ++ ys)) e ∙ body_bytes-feed p xs ys e
phase_bytes-feed head_phase p xs ys e =
    found_bytes-feed p xs ys (find_text head_terminator xs) e refl

pub parse_bytes-feed :
    (p : Http1Parser) (xs ys : List ℕ) → parse_bytes p (xs ++ ys) ≡ feed (parse_bytes p xs) ys
parse_bytes-feed p xs ys = phase_bytes-feed p.phase p xs ys refl

-- What a run ends with is what it shows.
pub shown :
    (p q : Http1Parser) (b c : ByteBuffer) (r : Http1ParseResult)
    → IsBuffer b
    → try_parse p b ≡ ok (q, c, r)
    → IsBuffer c × (parse_bytes p (readable_data b) ≡ (q, readable_data c, r))
shown p q b c r h e =
    let (d, f, is_buffer, rest) = try_parse-parse_bytes p b h in
    let same = sym f ∙ e in
    let is_it : d ≡ c = cc same in
    let parser : (parse_bytes p (readable_data b)).0 ≡ q = cc same in
    let found : (parse_bytes p (readable_data b)).2 ≡ r = cc same in
    let left : (parse_bytes p (readable_data b)).1 ≡ readable_data c =
      sym rest ∙ ap readable_data is_it in
    (
      subst IsBuffer is_it is_buffer,
      ap (λ q. (q, (parse_bytes p (readable_data b)).1, (parse_bytes p (readable_data b)).2)) parser
          ∙ ap (λ l. (q, l, (parse_bytes p (readable_data b)).2)) left
          ∙ ap (λ r. (q, readable_data c, r)) found,
    )

-- The parser does not care where the bytes are cut: when it asks for more, a run on the buffer that it
-- leaves with more bytes appended ends like one run of the parser as it was on all the bytes, with the
-- same parser, result and bytes left.
pub try_parse-append_more :
    (p q : Http1Parser) (b c : ByteBuffer) (r : Http1ParseResult) (ys : List ℕ)
    → IsBuffer b
    → try_parse p b ≡ ok (q, c, r)
    → r.status ≡ need_more_data
    → (o : Outcome) × Shows (try_parse q (append c ys)) o × Shows (try_parse p (append b ys)) o
try_parse-append_more p q b c r ys h e more =
    let (is_buffer, same) = shown p q b c r h e in
    let xs = readable_data b in
    let zs = readable_data c in
    let cut : parse_bytes p (xs ++ ys) ≡ parse_bytes q (zs ++ ys) =
      parse_bytes-feed p xs ys
      ∙ ap (λ o. feed o ys) same
      ∙ ap (λ s. if is_more s then parse_bytes q (zs ++ ys) else (q, zs ++ ys, r)) more in
    (
      parse_bytes q (zs ++ ys),
      subst (λ l. Shows (try_parse q (append c ys)) (parse_bytes q l))
          (append-readable c ys is_buffer)
          (try_parse-parse_bytes q (append c ys) (append-IsBuffer c ys is_buffer)),
      subst (Shows (try_parse p (append b ys))) (ap (parse_bytes p) (append-readable b ys h) ∙ cut)
          (try_parse-parse_bytes p (append b ys) (append-IsBuffer b ys h)),
    )

-- A request, or a refusal, of the parser stands whatever bytes follow, and these are left in the
-- buffer behind those that it did not consume.
pub try_parse-append_settled :
    (p q : Http1Parser) (b c : ByteBuffer) (r : Http1ParseResult) (ys : List ℕ)
    → IsBuffer b
    → try_parse p b ≡ ok (q, c, r)
    → is_more r.status ≡ false
    → Shows (try_parse p (append b ys)) (q, readable_data c ++ ys, r)
try_parse-append_settled p q b c r ys h e settled =
    let (is_buffer, same) = shown p q b c r h e in
    let xs = readable_data b in
    let zs = readable_data c in
    let cut : parse_bytes p (xs ++ ys) ≡ (q, zs ++ ys, r) =
      parse_bytes-feed p xs ys
      ∙ ap (λ o. feed o ys) same
      ∙ ap (λ t. if t then parse_bytes q (zs ++ ys) else (q, zs ++ ys, r)) settled in
    subst (Shows (try_parse p (append b ys))) (ap (parse_bytes p) (append-readable b ys h) ∙ cut)
      (try_parse-parse_bytes p (append b ys) (append-IsBuffer b ys h))
