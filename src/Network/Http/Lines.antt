-- ===== src/Network/Http/Lines.antt =====
-- The loop over the header lines against the headers that it reads.
use realm_mesh.Prelude.{
  ℕ, zero, suc, ◌+◌, ◌-◌, ◌≡◌, refl, [], ◌∷◌, not, ◌||◌, ◌==◌, Option, none, some, Text, length,
  take, drop, get_or, all_of, subst, either,
}
use realm_mesh.Network.Http.{
  HeadFields, crlf, no_fields, take_header, split_header, parse_line, go_on, parse_next,
  parse_fields,
}
use realm_mesh.Network.Http.Lexing.{
  is_blank, is_tchar, is_valid_value_char, lowercase, lowercase_again, trim_sp_htab, find_text,
}
use realm_mesh.Network.Http.Headers.{count_name, declared, IsRead, take_header-IsRead}

split_header-IsRead :
    (fields out : HeadFields) (line : Text) (found : Option ℕ)
    → IsRead fields
    → split_header fields line found ≡ some out
    → IsRead out
split_header-IsRead fields out line none h = λ e. cc
split_header-IsRead fields out line (some colon) h =
    let name = take colon line in
    let value = trim_sp_htab (drop (colon + 1) line) in
    either (λ (x : Option HeadFields). x ≡ some out → IsRead out)
      (colon == 0
        || is_blank (get_or line (colon - 1) 0)
        || not (all_of is_tchar name)
        || not (all_of is_valid_value_char value))
      none (take_header fields (lowercase name) value) (λ bad e. cc)
      (λ good e. take_header-IsRead fields out (lowercase name) value h (lowercase_again name) e)

parse_line-IsRead :
    (fields out : HeadFields) (line : Text)
    → IsRead fields
    → parse_line fields line ≡ some out
    → IsRead out
unfolding parse_line
parse_line-IsRead fields out line h =
    either (λ (x : Option HeadFields). x ≡ some out → IsRead out) (is_blank (get_or line 0 0)) none
      (split_header fields line (find_text (58 ∷ []) line)) (λ bad e. cc)
      (λ good e. split_header-IsRead fields out line (find_text (58 ∷ []) line) h e)

-- What one turn of the loop keeps, when the rest of the loop does.
go_on-IsRead :
    (continue : HeadFields → Text → Option HeadFields) (fields out : HeadFields) (line rest : Text)
    (found : Option HeadFields)
    → ((f : HeadFields) → IsRead f → continue f rest ≡ some out → IsRead out)
    → IsRead fields
    → parse_line fields line ≡ found
    → go_on continue rest found ≡ some out
    → IsRead out
go_on-IsRead continue fields out line rest none keeps h f e = cc
go_on-IsRead continue fields out line rest (some g) keeps h f e =
    keeps g (parse_line-IsRead fields g line h f) e

parse_next-IsRead :
    (continue : HeadFields → Text → Option HeadFields) (fields out : HeadFields) (rest : Text)
    (found : Option ℕ)
    → ((f : HeadFields) (l : Text) → IsRead f → continue f l ≡ some out → IsRead out)
    → IsRead fields
    → parse_next continue fields rest found ≡ some out
    → IsRead out
parse_next-IsRead continue fields out rest none keeps h = λ e. cc
parse_next-IsRead continue fields out rest (some line_end) keeps h =
    let line = take line_end rest in
    let next = drop (line_end + 2) rest in
    either (λ (x : Option HeadFields). x ≡ some out → IsRead out) (length line == 0) (some fields)
      (go_on continue next (parse_line fields line))
      (λ blank e. let is_it : fields ≡ out = cc e in subst IsRead is_it h)
      (λ full e.
        go_on-IsRead continue fields out line next (parse_line fields line) (λ f. keeps f next) h
          refl e)

pub no_fields-IsRead : IsRead no_fields
unfolding count_name declared
no_fields-IsRead = record { normal = tt; hosts = refl; lengths = refl; plain = refl; size = refl }

pub parse_fields-IsRead :
    (fuel : ℕ) (fields out : HeadFields) (rest : Text)
    → IsRead fields
    → parse_fields fuel fields rest ≡ some out
    → IsRead out
unfolding parse_fields
parse_fields-IsRead zero fields out [] h e = let is_it : fields ≡ out = cc e in subst IsRead is_it h
parse_fields-IsRead (suc fuel) fields out [] h e =
    let is_it : fields ≡ out = cc e in subst IsRead is_it h
parse_fields-IsRead zero fields out (c ∷ rest) h e = cc
parse_fields-IsRead (suc fuel) fields out (c ∷ rest) h e =
    parse_next-IsRead (parse_fields fuel) fields out (c ∷ rest) (find_text crlf (c ∷ rest))
      (λ f l. parse_fields-IsRead fuel f out l) h e
