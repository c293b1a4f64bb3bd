-- ===== src/Network/Http/Requests.antt =====
-- What holds of a request that the parser hands out.
use realm_mesh.Prelude.{ℕ, ◌+◌, ◌≤◌, ◌≡◌, List, [], Option, none, some, Text, codes, length}
use realm_mesh.Network.Http.{
  Http1Request, HeadResult, rejected, accepted, Phase, head_phase, body_phase, Http1Parser,
}
use realm_mesh.Network.Http.Chunks.{Outcome}
use realm_mesh.Network.Http.Headers.{count_name, declared, IsLower}

-- The names of the headers are in lower case, and with that case there are one host, at most one
-- content-length and no transfer-encoding; the body is `n` bytes long, as the headers declare, and within
-- the limit.
abbrev pub IsSafe : ℕ → List (Text × Text) → ℕ → Type 0
IsSafe max_body_bytes headers n =
    IsLower headers
    × (count_name (codes "host") headers ≡ 1)
    × (count_name (codes "content-length") headers ≤ 1)
    × (count_name (codes "transfer-encoding") headers ≡ 0)
    × (declared headers 0 ≡ some n)
    × (n ≤ max_body_bytes)

-- A head that is accepted is safe.
abbrev SafeHead : ℕ → HeadResult → Type 0
SafeHead max_body_bytes (rejected status) = Unit {0}
SafeHead max_body_bytes (accepted request n) =
    IsSafe max_body_bytes request.headers n × (request.body ≡ [])

-- Between two calls: a parser that waits for a body has a safe head, for the bytes that it has and
-- those that it waits for.
abbrev AwaitsIn : Phase → Http1Parser → Type 0
AwaitsIn head_phase p = Unit {0}
AwaitsIn body_phase p =
    IsSafe p.max_body_bytes p.pending_request.headers
      (length p.pending_request.body + p.body_remaining)

abbrev pub Awaits : Http1Parser → Type 0
Awaits p = AwaitsIn p.phase p

abbrev SafeRequest : ℕ → Option Http1Request → Type 0
SafeRequest max_body_bytes none = Unit {0}
SafeRequest max_body_bytes (some request) =
    IsSafe max_body_bytes request.headers (length request.body)

abbrev SafeOutcome : Outcome → Type 0
SafeOutcome (q, rest, r) = Awaits q × SafeRequest q.max_body_bytes r.request
