-- ===== src/Network/Http/Pieces.antt =====
-- The parser on bytes that come in pieces.
use realm_mesh.Prelude.{
  ℕ, zero, suc, ◌+◌, ◌-◌, ◌≤◌, ◌<◌, ◌≡◌, refl, sym, ◌∙◌, ap, min, List, [], ◌∷◌, ◌++◌, Bool, true,
  false, ltb, if◌then◌else◌, Text, length, take, drop, length-append, arith,
}
use mathlib.Core.List.{append_assoc}
use realm_mesh.Network.Framing.Buffer.{drop-append, drop_all, suc_add}
use realm_mesh.Network.Http.{
  Http1ParseStatus, need_more_data, request_ready, bad_request, payload_too_large,
  version_not_supported, headers_too_large, head_phase, Http1Parser, no_request, status_only, ready,
}
use realm_mesh.Network.Http.Chunks.{Outcome, body_bytes, parse_bytes}

abbrev pub is_more : Http1ParseStatus → Bool
is_more need_more_data = true
is_more request_ready = false
is_more bad_request = false
is_more payload_too_large = false
is_more headers_too_large = false
is_more version_not_supported = false

-- What bytes that follow make of an outcome.
abbrev pub feed : Outcome → List ℕ → Outcome
feed (q, rest, r) ys = if is_more r.status then parse_bytes q (rest ++ ys) else (q, rest ++ ys, r)

-- The end of `body_bytes`.
abbrev body_outcome : Http1Parser → Text → ℕ → List ℕ → Outcome
body_outcome p body left rest =
    if ltb 0 left
    then (
      record p {
        body_remaining = left;
        pending_request = record p.pending_request { body = body };
      },
      rest,
      status_only need_more_data,
    )
    else (
      record p { phase = head_phase; body_remaining = left; pending_request = no_request },
      rest,
      ready (record p.pending_request { body = body }),
    )

pub take-append : (n : ℕ) (xs ys : List ℕ) → n ≤ length xs → take n (xs ++ ys) ≡ take n xs
take-append zero xs ys h = refl
take-append (suc n) [] ys h = elim h [ ]
take-append (suc n) (x ∷ xs) ys h = ap (λ l. x ∷ l) (take-append n xs ys (omega arith))

take_past : (n : ℕ) (xs ys : List ℕ) → take (length xs + n) (xs ++ ys) ≡ xs ++ take n ys
take_past n [] ys = ap (λ k. take k ys) (omega arith)
take_past n (x ∷ xs) ys =
    ap (λ k. take k (x ∷ xs ++ ys)) (suc_add (length xs) n) ∙ ap (λ l. x ∷ l) (take_past n xs ys)

drop_past : (n : ℕ) (xs ys : List ℕ) → drop (length xs + n) (xs ++ ys) ≡ drop n ys
drop_past n [] ys = ap (λ k. drop k ys) (omega arith)
drop_past n (x ∷ xs) ys =
    ap (λ k. drop k (x ∷ xs ++ ys)) (suc_add (length xs) n) ∙ drop_past n xs ys

take_all : (n : ℕ) (xs : List ℕ) → length xs ≤ n → take n xs ≡ xs
take_all zero [] h = refl
take_all zero (x ∷ xs) h = elim h [ ]
take_all (suc n) [] h = refl
take_all (suc n) (x ∷ xs) h = ap (λ l. x ∷ l) (take_all n xs (omega arith))

-- A body that is not complete goes on with the bytes that follow.
pub body_more :
    (p : Http1Parser) (xs ys : List ℕ)
    → length xs < p.body_remaining
    → let count = min (length xs) p.body_remaining in
      let q = record p {
        body_remaining = p.body_remaining - count;
        pending_request = record p.pending_request {
          body = p.pending_request.body ++ take count xs;
        };
      } in
      body_bytes q (drop count xs ++ ys) ≡ body_bytes p (xs ++ ys)
body_more p xs ys short =
    let rem = p.body_remaining in
    let body = p.pending_request.body in
    let count = min (length xs) rem in
    let all : count ≡ length xs = omega arith in
    let none_left : drop count xs ≡ [] = drop_all count xs (omega arith) in
    let front : take count xs ≡ xs = take_all count xs (omega arith) in
    let k = min (length ys) (rem - length xs) in
    let both : min (length (xs ++ ys)) rem ≡ length xs + k = omega (arith, length-append xs ys) in
    let left : (rem - length xs) - k ≡ rem - (length xs + k) = omega arith in
    let text = append_assoc body xs (take k ys) in
    let q : ℕ → Text → Http1Parser = λ n t. record p {
      body_remaining = rem - n;
      pending_request = record p.pending_request { body = body ++ t };
    } in
    ap (λ n. body_bytes (q n (take count xs)) (drop count xs ++ ys)) all
    ∙ ap (λ l. body_bytes (q (length xs) (take count xs)) (l ++ ys)) none_left
    ∙ ap (λ t. body_bytes (q (length xs) t) ys) front
    ∙ ap (λ t. body_outcome p t ((rem - length xs) - k) (drop k ys)) text
    ∙ ap (λ t. body_outcome p (body ++ t) ((rem - length xs) - k) (drop k ys))
        (sym (take_past k xs ys))
    ∙ ap (λ n. body_outcome p (body ++ take (length xs + k) (xs ++ ys)) n (drop k ys)) left
    ∙ ap (body_outcome p (body ++ take (length xs + k) (xs ++ ys)) (rem - (length xs + k)))
        (sym (drop_past k xs ys))
    ∙ ap (λ n. body_outcome p (body ++ take n (xs ++ ys)) (rem - n) (drop n (xs ++ ys))) (sym both)

-- A body that is complete leaves the bytes that follow.
pub body_settled :
    (p : Http1Parser) (xs ys : List ℕ)
    → p.body_remaining ≤ length xs
    → body_bytes p (xs ++ ys)
      ≡ ((body_bytes p xs).0, (body_bytes p xs).1 ++ ys, (body_bytes p xs).2)
body_settled p xs ys enough =
    let rem = p.body_remaining in
    let body = p.pending_request.body in
    let one : min (length xs) rem ≡ rem = omega arith in
    let both : min (length (xs ++ ys)) rem ≡ rem = omega (arith, length-append xs ys) in
    let complete : ltb 0 (rem - rem) ≡ false = ground arith in
    let done : Text → List ℕ → Outcome = λ t l. (
      record p { phase = head_phase; body_remaining = rem - rem; pending_request = no_request },
      l,
      ready (record p.pending_request { body = body ++ t }),
    ) in
    let choose : Bool → Text → List ℕ → Outcome = λ test t l.
      if test
      then (
        record p {
          body_remaining = rem - rem;
          pending_request = record p.pending_request { body = body ++ t };
        },
        l,
        status_only need_more_data,
      )
      else done t l in
    let whole : body_bytes p (xs ++ ys) ≡ done (take rem xs) (drop rem xs ++ ys) =
      ap (λ n. body_outcome p (body ++ take n (xs ++ ys)) (rem - n) (drop n (xs ++ ys))) both
      ∙ ap (λ test. choose test (take rem (xs ++ ys)) (drop rem (xs ++ ys))) complete
      ∙ ap (λ t. done t (drop rem (xs ++ ys))) (take-append rem xs ys enough)
      ∙ ap (done (take rem xs)) (drop-append rem xs ys enough) in
    let part : body_bytes p xs ≡ done (take rem xs) (drop rem xs) =
      ap (λ n. body_outcome p (body ++ take n xs) (rem - n) (drop n xs)) one
      ∙ ap (λ test. choose test (take rem xs) (drop rem xs)) complete in
    whole ∙ ap (λ (o : Outcome). (o.0, o.1 ++ ys, o.2)) (sym part)
