-- ===== src/WebSocket/Handshake.antt =====
-- The handshake of components/web/src/web-socker-handshake.c, and `do_handshake` of
-- components/web/src/web-socket.c. SHA-1 and base64, copies of other projects, are given.
pub mod Response
use basic_setup.Prelude.{
  ℕ, zero, suc, ◌+◌, ◌-◌, ◌*◌, ◌≤◌, ◌≡◌, refl, sym, ap, ◌∙◌, Bool, true, false, ◌||◌, Option, none,
  some, List, [], ◌∷◌, ◌++◌, length, take, drop, replicate, ◌==◌, if◌then◌else◌, arith,
  append_assoc, length-append,
}
use basic_setup.Config.{codes}
use basic_setup.Storage.{bytes_equal}
use basic_setup.WebSocket.Sending.{Sent, sent, broken, blocked, overflowed, send_all}

-- The tokens of `strtok_r`, up to the terminator; `token` is the one that has begun.
abbrev pub finish_token : List ℕ → List (List ℕ)
finish_token [] = []
finish_token (c ∷ cs) = (c ∷ cs) ∷ []

unfoldable pub tokens : (ℕ → Bool) → List ℕ → List ℕ → List (List ℕ)
tokens is_delimiter [] token = finish_token token
tokens is_delimiter (c ∷ cs) token =
    let next = tokens is_delimiter cs [] in
    let longer = tokens is_delimiter cs (token ++ (c ∷ [])) in
    if c == 0
    then finish_token token
    else (if is_delimiter c then finish_token token ++ next else longer)

-- `strstr(s, needle) != NULL`.
unfoldable pub contains : List ℕ → List ℕ → Bool
contains needle [] = bytes_equal needle []
contains needle (c ∷ cs) =
    let later = contains needle cs in
    if bytes_equal (take (length needle) (c ∷ cs)) needle then true else later

abbrev pub is_eol : ℕ → Bool
is_eol c = c == 13 || c == 10

abbrev pub is_space : ℕ → Bool
is_space c = c == 32

abbrev pub ws_hs_req : List ℕ
ws_hs_req = codes "Sec-WebSocket-Key"

abbrev pub magic_string : List ℕ
magic_string = codes "258EAFA5-E914-47DA-95CA-C5AB0DC85B11"

abbrev pub ws_key_len : ℕ
ws_key_len = 24

abbrev pub ws_hs_acclen : ℕ
ws_hs_acclen = 130

abbrev pub line_end : List ℕ
line_end = 13 ∷ 10 ∷ []

abbrev pub ws_hs_accept : List ℕ
ws_hs_accept =
    codes "HTTP/1.1 101 Switching Protocols"
    ++ (line_end
        ++ (codes "Upgrade: websocket"
            ++ (line_end
                ++ (codes "Connection: Upgrade" ++ (line_end ++ codes "Sec-WebSocket-Accept: ")))))

-- The first line that has the key, and its second word.
unfoldable pub key_line : List (List ℕ) → Option (List ℕ)
unfolding contains
key_line [] = none
key_line (line ∷ lines) = if contains ws_hs_req line then some line else key_line lines

abbrev pub second_word : List (List ℕ) → Option (List ℕ)
second_word (first ∷ second ∷ rest) = some second
second_word _ = none

-- A string, -1, or a fault: `base64_encode` may give NULL, which is not tested.
pub data Answer : Type 0 where
  answer : List ℕ → Answer
  denied faulted : Answer

-- What is hashed: the key, cut to its length, and the magic string, in a zeroed buffer.
abbrev pub keyed : List ℕ → List ℕ
keyed key =
    let used = take ws_key_len key in
    used ++ (magic_string ++ replicate (ws_key_len - length used) 0)

-- The last byte of the encoding, a line feed, becomes the terminator.
abbrev pub without_last : List ℕ → List ℕ
without_last xs = take (length xs - 1) xs

-- Whether `calloc` finds memory for the key, and `malloc` for the response.
module _ (sha1 : List ℕ → List ℕ) (base64_encode : List ℕ → Option (List ℕ))
    (calloc_ok malloc_ok : Bool) where
  unfoldable pub get_handshake_accept : Option (List ℕ) → Answer
  get_handshake_accept none = denied
  get_handshake_accept (some key) =
      if calloc_ok
      then elim (base64_encode (sha1 (keyed key))) [
        | none ↦ faulted
        | some encoded ↦ answer (without_last encoded)
      ]
      else denied

  unfoldable pub get_handshake_response : List ℕ → Answer
  unfolding tokens key_line get_handshake_accept
  get_handshake_response request = elim (key_line (tokens is_eol request [])) [
    | none ↦ denied
    | some line ↦ elim (get_handshake_accept (second_word (tokens is_space line []))) [
      | answer accept ↦
          if malloc_ok then answer (ws_hs_accept ++ (accept ++ (line_end ++ line_end))) else denied
      | denied ↦ denied
      | faulted ↦ faulted
    ]
  ]

  -- Whether the handshake succeeds, nothing if it faults or waits, and the bytes that were sent.
  unfoldable pub do_handshake : List (Option ℕ) → List ℕ → Option Bool × List ℕ
  unfolding get_handshake_response send_all
  do_handshake results request = elim (get_handshake_response request) [
    | answer response ↦
        let (r, out) = send_all results response 0 [] in
        (
          elim r [ sent n ↦ some true | broken ↦ some false | blocked ↦ none | overflowed ↦ none ],
          out,
        )
    | denied ↦ (some false, [])
    | faulted ↦ (none, [])
  ]
