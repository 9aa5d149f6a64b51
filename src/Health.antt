-- ===== src/Health.antt =====
-- src/health.rs: the server of the probes, and what it answers.
pub mod Probe
mod Tests
use vaultwarden_operator.Prelude.{
  ◌+◌, ◌-◌, ◌/◌, Bool, true, false, ◌||◌, List, [], ◌∷◌, ◌++◌, if◌then◌else◌, unwrap_or, get_elem?,
  is_empty, ◌>>=◌, Result, ok, panic, Str, codes, str_eq, is_whitespace,
}

-- `split_whitespace`, after the word that has been read so far
unfoldable pub words_from : Str → Str → List Str
words_from word [] = if is_empty word then [] else word ∷ []
words_from word (c ∷ s) =
    let closed = words_from [] s in
    let longer = words_from (word ++ c ∷ []) s in
    if is_whitespace c then (if is_empty word then closed else word ∷ closed) else longer

unfoldable pub split_whitespace : Str → List Str
unfolding words_from
split_whitespace = words_from []

abbrev pub ok_response : Str
ok_response = codes "HTTP/1.1 200 OK\r\nContent-Length: 2\r\nContent-Type: text/plain\r\n\r\nOK"

abbrev pub not_found_response : Str
not_found_response =
    codes "HTTP/1.1 404 Not Found\r\nContent-Length: 9\r\nContent-Type: text/plain\r\n\r\nNot Found"

-- the `match` on the path
abbrev pub response_to : Str → Str
response_to path =
    if str_eq path (codes "/healthz") || str_eq path (codes "/readyz")
    then ok_response
    else not_found_response

-- What reading a line gives: the line, the end of the stream, or an error.
pub data Read : Type 0 where
  line : Str → Read
  end failed : Read

-- How a connection ends: with a response, without one, or not within these lines.
pub data Outcome : Type 0 where
  responded : Str → Outcome
  closed waiting : Outcome

-- whether the loop over the header lines ends
unfoldable pub drained : List Read → Bool
drained [] = false
drained (end ∷ rest) = true
drained (failed ∷ rest) = true
drained (line text ∷ rest) =
    if str_eq text (codes "\r\n") || str_eq text (codes "\n") then true else drained rest

unfoldable pub answer : (request_line : Str) → Outcome
unfolding split_whitespace
answer request_line =
    responded (response_to (unwrap_or (codes "/") (get_elem? (split_whitespace request_line) 1)))

unfoldable pub handle_connection : List Read → Outcome
unfolding drained answer
handle_connection [] = waiting
handle_connection (failed ∷ rest) = closed
handle_connection (end ∷ rest) = if drained rest then answer [] else waiting
handle_connection (line request_line ∷ rest) = if drained rest then answer request_line else waiting

-- What `accept` gives: a connection with the lines that are read from it, or an error.
pub data Accepted : Type 0 where
  stream : List Read → Accepted
  accept_error : Accepted

-- the loop of `serve`
unfoldable pub served : List Accepted → List Outcome
served [] = []
served (stream reads ∷ rest) = handle_connection reads ∷ served rest
served (accept_error ∷ rest) = served rest

-- `bound` says whether the address could be bound; where not, the task of the server panics.
unfoldable pub serve : (bound : Bool) → List Accepted → Result ⊥ (List Outcome)
unfolding served
serve true accepts = ok (served accepts)
serve false accepts = panic
