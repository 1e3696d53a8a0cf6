-- ===== src/WebSocket/Handshake/Response.antt =====
-- The response to a request with a key.
use basic_setup.Prelude.{
  ℕ, ◌+◌, ◌-◌, ◌≡◌, refl, sym, ap, ◌∙◌, Bool, true, false, ◌&&◌, not, Option, some, List, [], ◌∷◌,
  ◌++◌, length, replicate, ◌==◌, arith, append_assoc, append-nil, length-append, take-append,
  take_all,
}
use basic_setup.Config.{codes}
use basic_setup.Storage.{bytes_equal}
use basic_setup.WebSocket.Handshake.{
  finish_token, tokens, contains, is_eol, is_space, ws_hs_req, magic_string, ws_key_len,
  ws_hs_acclen, line_end, ws_hs_accept, key_line, second_word, answer, keyed, without_last,
  get_handshake_accept, get_handshake_response,
}

-- A text without delimiters and terminators.
abbrev pub AllPlain : (ℕ → Bool) → List ℕ → Type 0
AllPlain is_delimiter [] = Unit {0}
AllPlain is_delimiter (c ∷ cs) =
    ((c == 0) ≡ false) × (is_delimiter c ≡ false) × AllPlain is_delimiter cs

tokens-plain :
    (d : ℕ → Bool) (word rest token : List ℕ)
    → AllPlain d word
    → tokens d (word ++ rest) token ≡ tokens d rest (token ++ word)
unfolding tokens
tokens-plain d [] rest token p = ap (tokens d rest) (sym (append-nil token))
tokens-plain d (c ∷ cs) rest token (n, o, p) =
    rw (n, o)
      (tokens-plain d cs rest (token ++ (c ∷ [])) p
        ∙ ap (tokens d rest) (append_assoc token (c ∷ []) cs))

tokens-delimiter :
    (d : ℕ → Bool) (c : ℕ) (rest token : List ℕ)
    → (c == 0) ≡ false
    → d c ≡ true
    → tokens d (c ∷ rest) token ≡ finish_token token ++ tokens d rest []
unfolding tokens
tokens-delimiter d c rest token n y = rw (n, y) refl

-- A line and its end, before other text.
tokens-line :
    (x : ℕ) (xs rest : List ℕ)
    → AllPlain is_eol (x ∷ xs)
    → tokens is_eol ((x ∷ xs) ++ (line_end ++ rest)) [] ≡ (x ∷ xs) ∷ tokens is_eol rest []
tokens-line x xs rest p =
    tokens-plain is_eol (x ∷ xs) (line_end ++ rest) [] p
    ∙ tokens-delimiter is_eol 13 (10 ∷ rest) (x ∷ xs) refl refl
    ∙ ap (λ ts. (x ∷ xs) ∷ ts) (tokens-delimiter is_eol 10 rest [] refl refl)

-- The last word.
tokens-last :
    (d : ℕ → Bool) (word token : List ℕ)
    → AllPlain d word
    → tokens d word token ≡ finish_token (token ++ word)
unfolding tokens
tokens-last d word token p =
    ap (λ text. tokens d text token) (sym (append-nil word)) ∙ tokens-plain d word [] token p

-- Lines of a header, none empty.
abbrev pub AllLines : List (List ℕ) → Type 0
AllLines [] = Unit {0}
AllLines (line ∷ lines) =
    AllPlain is_eol line
    × ((length line == 0) ≡ false)
    × (contains ws_hs_req line ≡ false)
    × AllLines lines

unfoldable pub header_text : List (List ℕ) → List ℕ → List ℕ
header_text [] rest = rest
header_text (line ∷ lines) rest = line ++ (line_end ++ header_text lines rest)

tokens-header :
    (lines : List (List ℕ)) (rest : List ℕ)
    → AllLines lines
    → key_line (tokens is_eol (header_text lines rest) []) ≡ key_line (tokens is_eol rest [])
unfolding header_text key_line
tokens-header [] rest p = refl
tokens-header ([] ∷ lines) rest (p, n, c, ps) = absurd (ground arith)
tokens-header ((x ∷ xs) ∷ lines) rest (p, n, c, ps) =
    ap key_line (tokens-line x xs (header_text lines rest) p) ∙ rw c (tokens-header lines rest ps)

-- The text of a key line.
abbrev pub key_prefix : List ℕ
key_prefix = codes "Sec-WebSocket-Key: "

contains-prefix : (rest : List ℕ) → contains ws_hs_req (key_prefix ++ rest) ≡ true
unfolding contains bytes_equal
contains-prefix rest = refl

abbrev pub all_plain : (ℕ → Bool) → List ℕ → Bool
all_plain is_delimiter [] = true
all_plain is_delimiter (c ∷ cs) =
    not (c == 0) && (not (is_delimiter c) && all_plain is_delimiter cs)

pub AllPlain-append :
    (d : ℕ → Bool) (xs ys : List ℕ) → all_plain d xs ≡ true → AllPlain d ys → AllPlain d (xs ++ ys)
AllPlain-append d [] ys e p = p
AllPlain-append d (c ∷ cs) ys e p =
    (ground arith, ground arith, AllPlain-append d cs ys (ground arith) p)

-- The first line with the key gives the key.
key_line-key :
    (key rest : List ℕ)
    → AllPlain is_eol key
    → key_line (tokens is_eol (key_prefix ++ (key ++ (line_end ++ rest))) [])
      ≡ some (key_prefix ++ key)
unfolding key_line
key_line-key key rest p =
    ap key_line (
      tokens-line 83 (codes "ec-WebSocket-Key: " ++ key) rest
        (AllPlain-append is_eol key_prefix key refl p))
    ∙ rw (contains-prefix key) refl

second_word-key :
    (k : ℕ) (ks : List ℕ)
    → AllPlain is_space (k ∷ ks)
    → second_word (tokens is_space (key_prefix ++ (k ∷ ks)) []) ≡ some (k ∷ ks)
second_word-key k ks p =
    let name = codes "Sec-WebSocket-Key:" in
    ap second_word (
      tokens-plain is_space name (32 ∷ k ∷ ks) [] (AllPlain-append is_space name [] refl tt)
      ∙ tokens-delimiter is_space 32 (k ∷ ks) name refl refl
      ∙ ap (λ ts. name ∷ ts) (tokens-last is_space (k ∷ ks) [] p))

keyed_whole : (key : List ℕ) → length key ≡ ws_key_len → keyed key ≡ key ++ magic_string
keyed_whole key h =
    let whole = take_all ws_key_len key h in
    ap (λ used. used ++ (magic_string ++ replicate (ws_key_len - length used) 0)) whole
    ∙ ap (λ n. key ++ (magic_string ++ replicate (ws_key_len - n) 0)) h

without_last-append : (xs : List ℕ) (x : ℕ) → without_last (xs ++ (x ∷ [])) ≡ xs
without_last-append xs x =
    take-append (length (xs ++ (x ∷ [])) - 1) xs (x ∷ []) (omega (arith, length-append xs (x ∷ [])))

module _ (sha1 : List ℕ → List ℕ) (base64_encode : List ℕ → Option (List ℕ)) where
  get_handshake_accept-key :
      (key encoded : List ℕ)
      → length key ≡ ws_key_len
      → base64_encode (sha1 (key ++ magic_string)) ≡ some (encoded ++ (10 ∷ []))
      → get_handshake_accept sha1 base64_encode true true (some key) ≡ answer encoded
  unfolding get_handshake_accept
  get_handshake_accept-key key encoded size e =
      let hashed = ap (λ text. base64_encode (sha1 text)) (keyed_whole key size) ∙ e in
      rw (hashed, without_last-append encoded 10) refl

  get_handshake_response-key :
      (request line key accept : List ℕ)
      → key_line (tokens is_eol request []) ≡ some line
      → second_word (tokens is_space line []) ≡ some key
      → get_handshake_accept sha1 base64_encode true true (some key) ≡ answer accept
      → get_handshake_response sha1 base64_encode true true request
        ≡ answer (ws_hs_accept ++ (accept ++ (line_end ++ line_end)))
  unfolding get_handshake_response
  get_handshake_response-key request line key accept found word accepted =
      rw (found, word, accepted, get_handshake_response) refl

  -- A request with a line `Sec-WebSocket-Key: ` and a key of 24 bytes without spaces, behind lines
  -- that have no such name and are not empty, when there is memory: if the encoding of the hash of
  -- the key and the magic string has 28 bytes and a line feed, as base64 has for the 20 bytes of
  -- SHA-1, then the response ends in this encoding and an empty line, and with its terminator it
  -- fills the WS_HS_ACCLEN bytes of its buffer exactly.
  pub get_handshake_response-fits :
      (lines : List (List ℕ)) (k : ℕ) (ks rest encoded : List ℕ)
      → AllLines lines
      → AllPlain is_eol (k ∷ ks)
      → AllPlain is_space (k ∷ ks)
      → length (k ∷ ks) ≡ ws_key_len
      → base64_encode (sha1 ((k ∷ ks) ++ magic_string)) ≡ some (encoded ++ (10 ∷ []))
      → length encoded ≡ 28
      → let request = header_text lines (key_prefix ++ ((k ∷ ks) ++ (line_end ++ rest))) in
        let response = ws_hs_accept ++ (encoded ++ (line_end ++ line_end)) in
        (get_handshake_response sha1 base64_encode true true request ≡ answer response)
        × (length response + 1 ≡ ws_hs_acclen)
  get_handshake_response-fits lines k ks rest encoded ls eol space size e len =
      let found =
        tokens-header lines (key_prefix ++ ((k ∷ ks) ++ (line_end ++ rest))) ls
        ∙ key_line-key (k ∷ ks) rest eol in
      (
        get_handshake_response-key _ (key_prefix ++ (k ∷ ks)) (k ∷ ks) encoded found
            (second_word-key k ks space) (get_handshake_accept-key (k ∷ ks) encoded size e),
        omega (arith, length-append encoded (line_end ++ line_end), len),
      )
