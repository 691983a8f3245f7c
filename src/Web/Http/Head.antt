-- ===== src/Web/Http/Head.antt =====
-- `ReadRequestHead` of webserver/src/http_sse.cpp, whatever the pieces that `recv` returns.
use dts_framework.Common.{
  ◌<◌, ◌≡◌, refl, sym, ap, ◌∙◌, true, false, Option, none, some, List, [], ◌∷◌, ◌++◌, append_assoc,
  append-nil, arith, length, length-append, leb, Text, Option-cases, inl, inr, split_at_text,
  is_nil, if◌then◌else◌,
}
use dts_framework.Web.Http.{
  max_req_head, crlf, first_line, read_request_head, HttpSseServer, Served, serve_line, serve_conn,
  closed,
}
use dts_framework.Web.Http.Split.{is_found, extended, split-append, split-shorter}

abbrev line_of : Option (Text × Text) → Option Text
line_of none = none
line_of (some r) = if is_nil r.0 then none else some r.0

first_line-line_of : (xs : Text) → first_line xs ≡ line_of (split_at_text crlf xs)
unfolding first_line
first_line-line_of xs = elim (Option-cases (split_at_text crlf xs)) [
  | inl e ↦ rw (first_line, e) refl
  | inr (r, e) ↦ rw (first_line, e) refl
]

line_of-extended : (ys : Text) (o : Option (Text × Text)) → line_of (extended ys o) ≡ line_of o
line_of-extended ys none = refl
line_of-extended ys (some r) = refl

first_line-append :
    (xs ys : Text)
    → is_found (split_at_text (crlf ++ crlf) xs) ≡ true
    → first_line (xs ++ ys) ≡ first_line xs
first_line-append xs ys h =
    first_line-line_of (xs ++ ys)
    ∙ ap line_of (split-append 13 (10 ∷ []) xs ys (split-shorter xs h))
    ∙ line_of-extended ys (split_at_text crlf xs)
    ∙ sym (first_line-line_of xs)

-- The first line of a text with an empty line.
abbrev head_in : Text → Option (Text × Text) → Option Text
head_in text none = none
head_in text (some r) = first_line text

abbrev head_line : Text → Option Text
head_line text = head_in text (split_at_text (crlf ++ crlf) text)

abbrev pub joined : List Text → Text
joined [] = []
joined (chunk ∷ chunks) = chunk ++ joined chunks

head_in-found :
    (text : Text) (o : Option (Text × Text)) → is_found o ≡ true → head_in text o ≡ first_line text
head_in-found text none h = absurd (cc)
head_in-found text (some r) h = refl

head_in-missed :
    (text : Text) (o : Option (Text × Text)) → is_found o ≡ false → head_in text o ≡ none
head_in-missed text none h = refl
head_in-missed text (some r) h = absurd (cc)

extended-found : (ys : Text) (o : Option (Text × Text)) → is_found (extended ys o) ≡ is_found o
extended-found ys none = refl
extended-found ys (some r) = refl

head_line-append :
    (xs ys : Text)
    → is_found (split_at_text (crlf ++ crlf) xs) ≡ true
    → head_line (xs ++ ys) ≡ first_line xs
head_line-append xs ys h =
    ap (head_in (xs ++ ys)) (split-append 13 (10 ∷ crlf) xs ys h)
    ∙ head_in-found (xs ++ ys) (extended ys (split_at_text (crlf ++ crlf) xs))
        (extended-found ys (split_at_text (crlf ++ crlf) xs) ∙ h)
    ∙ first_line-append xs ys h

read_request_head-joined :
    (buf : Text) (chunks : List Text)
    → is_found (split_at_text (crlf ++ crlf) buf) ≡ false
    → length (buf ++ joined chunks) < max_req_head
    → read_request_head buf chunks ≡ head_line (buf ++ joined chunks)
unfolding read_request_head
read_request_head-joined buf [] h small =
    sym (ap head_line (append-nil buf) ∙ head_in-missed buf (split_at_text (crlf ++ crlf) buf) h)
read_request_head-joined buf (chunk ∷ chunks) h small =
    let open_buf : leb max_req_head (length buf) ≡ false =
      ground (arith, length-append buf (chunk ++ joined chunks)) in
    let regroup = append_assoc buf chunk (joined chunks) in
    elim (Option-cases (split_at_text (crlf ++ crlf) (buf ++ chunk))) [
      | inl e ↦
          rw (open_buf, e)
            (read_request_head-joined (buf ++ chunk) chunks (ap is_found e) (rw regroup small)
              ∙ ap head_line regroup)
      | inr (r, e) ↦
          rw (open_buf, e)
            (sym (head_line-append (buf ++ chunk) (joined chunks) (ap is_found e))
              ∙ ap head_line regroup)
    ]

serve_head : HttpSseServer → Text → Option Text → Served
serve_head v stats none = closed
serve_head v stats (some line) = serve_line v stats line

serve_conn-head :
    (v : HttpSseServer) (stats : Text) (chunks : List Text)
    → length (joined chunks) < max_req_head
    → serve_conn v stats chunks ≡ serve_head v stats (head_line (joined chunks))
unfolding serve_conn serve_head split_at_text
serve_conn-head v stats chunks small =
    ap (λ o. elim o as (λ _. Served) [ none ↦ closed | some line ↦ serve_line v stats line ])
      (read_request_head-joined [] chunks refl small)
    ∙ refl

-- What becomes of a connection does not depend on the pieces in which the request arrives, where
-- they are fewer than 4096 bytes together: it is what becomes of it when all of them arrive at
-- once.
pub serve_conn-joined :
    (v : HttpSseServer) (stats : Text) (chunks : List Text)
    → length (joined chunks) < max_req_head
    → serve_conn v stats chunks ≡ serve_conn v stats (joined chunks ∷ [])
serve_conn-joined v stats chunks small =
    let same = append-nil (joined chunks) in
    serve_conn-head v stats chunks small
    ∙ ap (λ t. serve_head v stats (head_line t)) (sym same)
    ∙ sym (serve_conn-head v stats (joined chunks ∷ []) (rw same small))
