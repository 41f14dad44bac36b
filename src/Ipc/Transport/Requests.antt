-- ===== src/Ipc/Transport/Requests.antt =====
-- Requests over the lines of crates/ipc/src/transport.rs.
use my_deskflow.Prelude.{
  ◌≡◌, ◌≢◌, refl, true, Option, none, some, List, [], ◌∷◌, ◌++◌, All, arith, Option-cases, inl, inr,
}
use my_deskflow.Prelude.Bytes.{Bytes}
use my_deskflow.Core.Error.{Result, ok, err, ◌>>=◌}
use my_deskflow.Ipc.Transport.{
  Json, Lines, newline, write_json_line, read_line, parse_line, read_json_line, IpcMessage,
  response, IpcError, disconnected, write_answer, served, serve_request, only_response, request,
  converse,
}

-- What the program relies on: a value is written on one line of text that does not end in blanks.
pub record IsLine (lines : Lines) (text : Bytes) : Type 0 where
  pub no_newline : All (λ c. c ≢ newline) text
  pub utf8 : lines.is_utf8 (text ++ (newline ∷ [])) ≡ true
  pub trimmed : lines.trim_end (text ++ (newline ∷ [])) ≡ text

read_line-append :
    (text rest : Bytes)
    → All (λ c. c ≢ newline) text
    → read_line (text ++ (newline ∷ rest)) ≡ (text ++ (newline ∷ []), rest)
unfolding read_line
read_line-append [] rest h = refl
read_line-append (c ∷ cs) rest h =
    let ih = read_line-append cs rest h.1 in let other = h.0 in ground arith

parse_line-append :
    {T : Type 0} (json : Json T) (lines : Lines) (text rest : Bytes) (v : T)
    → IsLine lines text
    → json.from_str text ≡ ok v
    → parse_line json lines (text ++ (newline ∷ []), rest) ≡ ok (v, rest)
parse_line-append json lines [] rest v line back = rw (line.utf8, line.trimmed, back) refl
parse_line-append json lines (c ∷ cs) rest v line back = rw (line.utf8, line.trimmed, back) refl

pub read_json_line-append :
    {T : Type 0} (json : Json T) (lines : Lines) (text rest : Bytes) (v : T)
    → IsLine lines text
    → json.from_str text ≡ ok v
    → read_json_line json lines (text ++ (newline ∷ rest)) ≡ ok (v, rest)
unfolding read_json_line
read_json_line-append json lines text rest v line back =
    rw (read_line-append text rest line.no_newline)
      (parse_line-append json lines text rest v line back)

-- A value of one type is written on a line and read as one of another.
pub record IsSent {T U : Type 0} (lines : Lines) (out : Json T) (back : Json U) (view : T → U)
    (v : T) : Type 0 where
  pub text : Bytes
  pub written : out.to_vec v ≡ ok text
  pub line : IsLine lines text
  pub read : back.from_str text ≡ ok (view v)

module _ {Q R S : Type 0} (handle : S → Q → S × Option R) where
  -- What the daemon does with the requests, with no socket between; a request without a response
  -- ends the process, and disconnects the client.
  unfoldable pub handle_all : S → List Q → Result IpcError (S × List R)
  handle_all s [] = ok (s, [])
  handle_all s (req ∷ reqs) =
      let done = handle s req in
      let rest = handle_all done.0 reqs in
      elim done.1 [
        | none ↦ err disconnected
        | some r ↦ (rest >>= λ after. ok (after.0, r ∷ after.1))
      ]

  -- The responses to the requests, up to the first one that ends the process.
  unfoldable pub given : S → List Q → List R
  given s [] = []
  given s (req ∷ reqs) =
      let done = handle s req in
      let rest = given done.0 reqs in elim done.1 [ none ↦ [] | some r ↦ r ∷ rest ]

module _ {Q R E : Type 0} (requests : Json Q) (responses : Json R)
    (messages : Json (IpcMessage R E)) (lines : Lines) {S : Type 0}
    (handle : S → Q → S × Option R) where
  abbrev pub IsAsked : Q → Type 0
  IsAsked = IsSent lines requests requests (λ (q : Q). q)

  abbrev pub IsGiven : R → Type 0
  IsGiven = IsSent lines responses messages (λ (r : R). response r)

  module _ (s : S) (req : Q) (asked : IsAsked req) where
    read_request : read_json_line requests lines (asked.text ++ (newline ∷ [])) ≡ ok (req, [])
    read_request = read_json_line-append requests lines asked.text [] req asked.line asked.read

    served-some :
        (r : R)
        → (handle s req).1 ≡ some r
        → (sent : IsGiven r)
        → served requests responses messages lines handle s (asked.text ++ (newline ∷ []))
          ≡ ((handle s req).0, sent.text ++ (newline ∷ []))
    unfolding served serve_request write_answer write_json_line
    served-some r gives sent = rw (served, serve_request, read_request, gives, sent.written) refl

    served-none :
        (handle s req).1 ≡ none
        → served requests responses messages lines handle s (asked.text ++ (newline ∷ []))
          ≡ ((handle s req).0, [])
    unfolding served serve_request write_answer
    served-none exits = rw (served, serve_request, read_request, exits) refl

    request-some :
        (r : R)
        → (handle s req).1 ≡ some r
        → IsGiven r
        → request requests responses messages lines handle s req ≡ ok ((handle s req).0, r)
    unfolding request write_json_line only_response
    request-some r gives sent =
        rw
          (
            asked.written,
            served-some r gives sent,
            read_json_line-append messages lines sent.text [] (response r) sent.line sent.read,
          )
          refl

    request-none :
        (handle s req).1 ≡ none
        → request requests responses messages lines handle s req ≡ err disconnected
    unfolding request write_json_line read_json_line read_line
    request-none exits = rw (asked.written, served-none exits) refl

  pub converse-refines_handle_all :
      (s : S) (reqs : List Q)
      → All IsAsked reqs
      → All IsGiven (given handle s reqs)
      → converse requests responses messages lines handle s reqs ≡ handle_all handle s reqs
  unfolding converse handle_all given
  converse-refines_handle_all s [] asked gives = refl
  converse-refines_handle_all s (req ∷ reqs) asked gives = elim (Option-cases (handle s req).1) [
    | inl exits ↦ rw (request-none s req asked.0 exits, exits, handle_all) refl
    | inr (r, e) ↦
        let sent = rw (e, given) at gives in
        rw
          (
            request-some s req asked.0 r e sent.0,
            e,
            handle_all,
            converse-refines_handle_all (handle s req).0 reqs asked.1 sent.1,
          )
          refl
  ]
