-- ===== src/Health/Probe.antt =====
-- The answer to a probe of src/health.rs.
use vaultwarden_operator.Prelude.{
  ℕ, ◌≡◌, refl, sym, ◌∙◌, ◌≢◌, true, false, List, [], ◌∷◌, ◌++◌, append_assoc, append-nil, All, In,
  inl, inr, ap, subst, ok, Str, is_whitespace,
}
use vaultwarden_operator.Health.{
  words_from, split_whitespace, response_to, Read, line, responded, drained, answer, Accepted,
  stream, accept_error, served, serve, Outcome, closed, handle_connection,
}

-- A word: not empty, and without white space.
abbrev pub IsWord : Str → Type 0
IsWord w = (w ≢ []) × All (λ c. is_whitespace c ≡ false) w

words_from-word :
    (word w s : Str) (c : ℕ)
    → All (λ d. is_whitespace d ≡ false) w
    → is_whitespace c ≡ true
    → word ++ w ≢ []
    → words_from word (w ++ c ∷ s) ≡ (word ++ w) ∷ words_from [] s
unfolding words_from
words_from-word [] [] s c h blank some_word = absurd (some_word refl)
words_from-word (d ∷ word) [] s c h blank some_word = rw (blank, append-nil word)
words_from-word word (d ∷ w) s c (n, h) blank some_word =
    let longer : (word ++ d ∷ []) ++ w ≡ word ++ d ∷ w = append_assoc word (d ∷ []) w in
    rw (n, words_from-word (word ++ d ∷ []) w s c h blank (λ e. some_word (sym longer ∙ e)), longer)

split_whitespace-word :
    (w s : Str) (c : ℕ)
    → IsWord w
    → is_whitespace c ≡ true
    → split_whitespace (w ++ c ∷ s) ≡ w ∷ split_whitespace s
unfolding split_whitespace
split_whitespace-word w s c (some_word, h) blank = words_from-word [] w s c h blank some_word

space : is_whitespace b' ' ≡ true
unfolding is_whitespace
space = refl

-- Whatever the method and the header lines, once these have ended a request whose line has the path
-- `/healthz` or `/readyz` is answered with 200, and one with another path with 404.
pub handle_connection_path :
    (method path version : Str) (headers : List Read)
    → IsWord method
    → IsWord path
    → drained headers ≡ true
    → handle_connection (line (method ++ b' ' ∷ (path ++ b' ' ∷ version)) ∷ headers)
      ≡ responded (response_to path)
unfolding handle_connection answer
handle_connection_path method path version headers m p ended = rw (
  ended,
  split_whitespace-word method (path ++ b' ' ∷ version) b' ' m space,
  split_whitespace-word path version b' ' p space,
)

served-In :
    (accepts : List Accepted) (reads : List Read)
    → In (stream reads) accepts
    → In (handle_connection reads) (served accepts)
unfolding served
served-In [] reads h = absurd h
served-In (stream r ∷ rest) reads (inl same) = inl (ap outcome_of same)
  where
    outcome_of : Accepted → Outcome
    outcome_of (stream rs) = handle_connection rs
    outcome_of accept_error = closed
served-In (stream r ∷ rest) reads (inr later) = inr (served-In rest reads later)
served-In (accept_error ∷ rest) reads (inl same) = cc
served-In (accept_error ∷ rest) reads (inr later) = served-In rest reads later

-- Once the address is bound, each probe is answered so, whatever else is accepted.
pub serve_path :
    (method path version : Str) (headers : List Read) (accepts : List Accepted)
    (outcomes : List Outcome)
    → IsWord method
    → IsWord path
    → drained headers ≡ true
    → In (stream (line (method ++ b' ' ∷ (path ++ b' ' ∷ version)) ∷ headers)) accepts
    → serve true accepts ≡ ok outcomes
    → In (responded (response_to path)) outcomes
unfolding serve
serve_path method path version headers accepts outcomes m p ended came bound =
    let probe = line (method ++ b' ' ∷ (path ++ b' ' ∷ version)) ∷ headers in
    let answered = handle_connection_path method path version headers m p ended in
    let found = served-In accepts probe came in
    let all : served accepts ≡ outcomes = cc in
    subst (λ os. In (responded (response_to path)) os) all
      (subst (λ o. In o (served accepts)) answered found)
