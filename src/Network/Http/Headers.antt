-- ===== src/Network/Http/Headers.antt =====
-- The headers of a request that the parser accepts.
use realm_mesh.Prelude.{
  ℕ, ◌+◌, ◌≡◌, refl, sym, ◌∙◌, ap, List, [], ◌∷◌, ◌++◌, true, false, if◌then◌else◌, Option, none,
  some, Text, codes, text_eq, text_eq→eq, arith, Bool-cases, inl, inr, subst, either,
}
use realm_mesh.Network.Http.Lexing.{lowercase}
use realm_mesh.Network.Http.{HeadFields, parse_length, with_length, with_header, take_header}

-- How often a name stands among the headers.
unfoldable pub count_name : Text → List (Text × Text) → ℕ
count_name name [] = 0
count_name name ((key, value) ∷ headers) =
    (if text_eq key name then 1 else 0) + count_name name headers

abbrev declared_next : (ℕ → Option ℕ) → Option ℕ → Option ℕ
declared_next later none = none
declared_next later (some n) = later n

-- The length that the headers declare: that of the last content-length, or `n` without one.
unfoldable pub declared : List (Text × Text) → ℕ → Option ℕ
declared [] n = some n
declared ((key, value) ∷ headers) n =
    if text_eq key (codes "content-length")
    then declared_next (declared headers) (parse_length value)
    else declared headers n

count_name-append :
    (name key value : Text) (headers : List (Text × Text))
    → count_name name (headers ++ (key, value) ∷ [])
      ≡ count_name name headers + (if text_eq key name then 1 else 0)
unfolding count_name
count_name-append name key value [] = omega arith
count_name-append name key value ((k, v) ∷ headers) =
    omega (arith, count_name-append name key value headers)

declared_next-append :
    (key value : Text) (headers : List (Text × Text)) (size : Option ℕ)
    → ((n : ℕ)
        → declared (headers ++ (key, value) ∷ []) n
          ≡ declared_next (declared ((key, value) ∷ [])) (declared headers n))
    → declared_next (declared (headers ++ (key, value) ∷ [])) size
      ≡ declared_next (declared ((key, value) ∷ [])) (declared_next (declared headers) size)
declared_next-append key value headers none h = refl
declared_next-append key value headers (some n) h = h n

declared-append :
    (key value : Text) (headers : List (Text × Text)) (n : ℕ)
    → declared (headers ++ (key, value) ∷ []) n
      ≡ declared_next (declared ((key, value) ∷ [])) (declared headers n)
unfolding declared
declared-append key value [] n = refl
declared-append key value ((k, v) ∷ headers) n =
    elim (Bool-cases (text_eq k (codes "content-length"))) [
      | inl here ↦
          ap
            (λ t.
              if t
              then declared_next (declared (headers ++ (key, value) ∷ [])) (parse_length v)
              else declared (headers ++ (key, value) ∷ []) n)
            here
          ∙ declared_next-append key value headers (parse_length v)
              (declared-append key value headers)
          ∙ ap
              (λ t. declared_next (declared ((key, value) ∷ [])) (
                if t
                then declared_next (declared headers) (parse_length v)
                else declared headers n))
              (sym here)
      | inr there ↦
          ap
            (λ t.
              if t
              then declared_next (declared (headers ++ (key, value) ∷ [])) (parse_length v)
              else declared (headers ++ (key, value) ∷ []) n)
            there
          ∙ declared-append key value headers n
          ∙ ap
              (λ t. declared_next (declared ((key, value) ∷ [])) (
                if t
                then declared_next (declared headers) (parse_length v)
                else declared headers n))
              (sym there)
    ]

-- No name has a letter in upper case.
abbrev pub IsLower : List (Text × Text) → Type 0
IsLower [] = Unit {0}
IsLower ((key, value) ∷ headers) = (lowercase key ≡ key) × IsLower headers

IsLower-append :
    (key value : Text) (headers : List (Text × Text))
    → lowercase key ≡ key
    → IsLower headers
    → IsLower (headers ++ (key, value) ∷ [])
IsLower-append key value [] k h = (k, tt)
IsLower-append key value ((name, v) ∷ headers) k (l, h) = (l, IsLower-append key value headers k h)

-- The names are in lower case; the counts of the loop are those of the headers; none of them is a
-- transfer-encoding; and the length is the declared one.
pub record IsRead (fields : HeadFields) : Type 0 where
  pub normal : IsLower fields.headers
  pub hosts : count_name (codes "host") fields.headers ≡ fields.host_count
  pub lengths : count_name (codes "content-length") fields.headers ≡ fields.content_length_count
  pub plain : count_name (codes "transfer-encoding") fields.headers ≡ 0
  pub size : declared fields.headers 0 ≡ some fields.content_length

-- The headers with one more, of a name that is no transfer-encoding.
one_more :
    (fields out : HeadFields) (name value : Text)
    → IsRead fields
    → lowercase name ≡ name
    → text_eq name (codes "transfer-encoding") ≡ false
    → out.headers ≡ fields.headers ++ (name, value) ∷ []
    → out.host_count ≡ fields.host_count + (if text_eq name (codes "host") then 1 else 0)
    → out.content_length_count
      ≡ fields.content_length_count + (if text_eq name (codes "content-length") then 1 else 0)
    → declared ((name, value) ∷ []) fields.content_length ≡ some out.content_length
    → IsRead out
one_more fields out name value h low plain all hosts lengths size = record {
  normal = subst IsLower (sym all) (IsLower-append name value fields.headers low h.normal);
  hosts =
      ap (count_name (codes "host")) all
      ∙ count_name-append (codes "host") name value fields.headers
      ∙ ap (λ n. n + (if text_eq name (codes "host") then 1 else 0)) h.hosts
      ∙ sym hosts;
  lengths =
      ap (count_name (codes "content-length")) all
      ∙ count_name-append (codes "content-length") name value fields.headers
      ∙ ap (λ n. n + (if text_eq name (codes "content-length") then 1 else 0)) h.lengths
      ∙ sym lengths;
  plain =
      ap (count_name (codes "transfer-encoding")) all
      ∙ count_name-append (codes "transfer-encoding") name value fields.headers
      ∙ ap (λ n. n + (if text_eq name (codes "transfer-encoding") then 1 else 0)) h.plain
      ∙ ap (λ t. 0 + (if t then 1 else 0)) plain;
  size =
      ap (λ l. declared l 0) all
      ∙ declared-append name value fields.headers 0
      ∙ ap (declared_next (declared ((name, value) ∷ []))) h.size
      ∙ size;
}

with_length-IsRead :
    (fields out : HeadFields) (name value : Text) (found : Option ℕ)
    → IsRead fields
    → lowercase name ≡ name
    → text_eq name (codes "transfer-encoding") ≡ false
    → text_eq name (codes "host") ≡ false
    → text_eq name (codes "content-length") ≡ true
    → parse_length value ≡ found
    → with_header name value (with_length fields found) ≡ some out
    → IsRead out
unfolding declared
with_length-IsRead fields out name value none h low plain no_host is_length f e = cc
with_length-IsRead fields out name value (some n) h low plain no_host is_length f e =
    let new : HeadFields = record {
      headers = fields.headers ++ (name, value) ∷ [];
      content_length = n;
      host_count = fields.host_count;
      content_length_count = fields.content_length_count + 1;
    } in
    let is_it : new ≡ out = cc e in
    subst IsRead is_it (
      one_more fields new name value h low plain refl
        (omega arith ∙ ap (λ t. fields.host_count + (if t then 1 else 0)) (sym no_host))
        (ap (λ t. fields.content_length_count + (if t then 1 else 0)) (sym is_length))
        (ap
            (λ t.
              if t
              then declared_next (declared []) (parse_length value)
              else some fields.content_length)
            is_length
          ∙ ap (declared_next (declared [])) f))

pub take_header-IsRead :
    (fields out : HeadFields) (name value : Text)
    → IsRead fields
    → lowercase name ≡ name
    → take_header fields name value ≡ some out
    → IsRead out
unfolding take_header text_eq declared
take_header-IsRead fields out name value h low =
    let goal : Option HeadFields → Type 0 = λ x. x ≡ some out → IsRead out in
    let known = with_length fields (parse_length value) in
    let is_host : Option HeadFields = some (record fields { host_count = fields.host_count + 1 }) in
    let other = if text_eq name (codes "content-length") then known else some fields in
    either goal (text_eq name (codes "transfer-encoding")) none _ (λ bad e. cc)
      (λ plain.
        either (λ x. goal (with_header name value x)) (text_eq name (codes "host")) is_host other
          (λ host e.
            let new : HeadFields = record fields {
              headers = fields.headers ++ (name, value) ∷ [];
              host_count = fields.host_count + 1;
            } in
            let is_it : new ≡ out = cc e in
            let no_length : text_eq name (codes "content-length") ≡ false =
              ap (λ t. text_eq t (codes "content-length")) (text_eq→eq name (codes "host") host) in
            subst IsRead is_it (
              one_more fields new name value h low plain refl
                (ap (λ t. fields.host_count + (if t then 1 else 0)) (sym host))
                (omega arith
                  ∙ ap (λ t. fields.content_length_count + (if t then 1 else 0)) (sym no_length))
                (ap
                  (λ t.
                    if t
                    then declared_next (declared []) (parse_length value)
                    else some fields.content_length)
                  no_length)))
          (λ no_host.
            either (λ x. goal (with_header name value x)) (text_eq name (codes "content-length"))
              known (some fields)
              (λ is_length e.
                with_length-IsRead fields out name value (parse_length value) h low plain no_host
                  is_length refl e)
              (λ no_length e.
                let new : HeadFields = record fields {
                  headers = fields.headers ++ (name, value) ∷ [];
                } in
                let is_it : new ≡ out = cc e in
                subst IsRead is_it (
                  one_more fields new name value h low plain refl
                    (omega arith ∙ ap (λ t. fields.host_count + (if t then 1 else 0)) (sym no_host))
                    (omega arith
                      ∙ ap (λ t. fields.content_length_count + (if t then 1 else 0))
                          (sym no_length))
                    (ap
                      (λ t.
                        if t
                        then declared_next (declared []) (parse_length value)
                        else some fields.content_length)
                      no_length)))))
