-- ===== src/Session/Upgrade.antt =====
-- From the request for a WebSocket to its slot: `http_handler` of
-- components/web/src/web-server.c, the handshake, and `ws_accept` of
-- components/web/src/web-socket.c.
use basic_setup.Prelude.{
  ℕ, ◌-◌, ◌≤◌, ◌≡◌, refl, sym, ap, ◌∙◌, subst, Bool, true, false, Option, some, List, [], ◌∷◌, ◌++◌,
  length, drop, drop-append, append_assoc, length-append, arith,
}
use basic_setup.Config.{codes}
use basic_setup.Storage.{bytes_equal}
use basic_setup.Storage.Password.{bytes_equal_iff}
use basic_setup.Http.{WebFile, Handled, Accepted, accepted, http_handler, hand_over, crlf}
use basic_setup.Http.Requests.{http_handler-ws}
use basic_setup.WebSocket.Clients.{Slot, Table, choose_slot, slot_at, ws_accept}
use basic_setup.WebSocket.Clients.Accept.{sock_of, ws_accept-Gives}
use basic_setup.WebSocket.Sending.{sent, send_all}
use basic_setup.WebSocket.Handshake.{
  contains, ws_hs_req, is_eol, is_space, magic_string, ws_key_len, line_end, ws_hs_accept,
  do_handshake, get_handshake_response, answer,
}
use basic_setup.WebSocket.Handshake.Response.{
  AllPlain, AllLines, AllPlain-append, header_text, key_prefix, get_handshake_response-fits,
}

-- `do_handshake(...) != ESP_OK`, negated.
abbrev pub succeeded : Option Bool → Bool
succeeded (some true) = true
succeeded _ = false

header_text-append :
    (lines : List (List ℕ)) (xs ys : List ℕ)
    → header_text lines (xs ++ ys) ≡ header_text lines xs ++ ys
unfolding header_text
header_text-append [] xs ys = refl
header_text-append (line ∷ lines) xs ys =
    ap (λ text. line ++ (line_end ++ text)) (header_text-append lines xs ys)
    ∙ sym (append_assoc line (line_end ++ header_text lines xs) ys)

nameless : contains ws_hs_req (codes "GET /ws HTTP/1.1") ≡ false
unfolding contains bytes_equal
nameless = refl

ends_empty :
    (text : List ℕ)
    → let request = text ++ (line_end ++ line_end) in
      bytes_equal (drop (length request - 4) request) (crlf ++ crlf) ≡ true
ends_empty text =
    let n = length (text ++ (line_end ++ line_end)) - 4 in
    (bytes_equal_iff _ _).1 (
      drop-append n text (line_end ++ line_end)
        (omega (arith, length-append text (line_end ++ line_end))))

module _ (sha1 : List ℕ → List ℕ) (base64_encode : List ℕ → Option (List ℕ))
    (results : List (Option ℕ)) (sock : ℕ) (t : Table) where
  -- `ws_accept` on a request, with its locks and its thread.
  abbrev pub accept_request : List ℕ → Accepted × Table
  accept_request request =
      ws_accept true (succeeded (do_handshake sha1 base64_encode true true results request).0) true
        sock t

  do_handshake-answer :
      (request response : List ℕ)
      → get_handshake_response sha1 base64_encode true true request ≡ answer response
      → send_all results response 0 [] ≡ (sent (length response), response)
      → do_handshake sha1 base64_encode true true results request ≡ (some true, response)
  unfolding do_handshake
  do_handshake-answer request response e all = rw (e, all, do_handshake) refl

  -- What `ws_accept` leaves behind a handshake that succeeds.
  record IsUpgraded (request : List ℕ) (i : ℕ) : Type 0 where
    taken : (accept_request request).0 ≡ accepted
    holds : sock_of (slot_at (accept_request request).1.slots i) ≡ some sock

  accept_request-IsUpgraded :
      (request response : List ℕ) (i : ℕ) (s : Slot) (chosen : Table)
      → do_handshake sha1 base64_encode true true results request ≡ (some true, response)
      → choose_slot t ≡ some (i, chosen)
      → slot_at chosen.slots i ≡ some s
      → IsUpgraded request i
  unfolding ws_accept
  accept_request-IsUpgraded request response i s chosen shaken free at =
      let same : accept_request request ≡ ws_accept true true true sock t =
        ap (λ (r : Option Bool × List ℕ). ws_accept true (succeeded r.0) true sock t) shaken in
      let accepts : (ws_accept true true true sock t).0 ≡ accepted = rw (free, ws_accept) refl in
      let gives = ws_accept-Gives true true true sock i s t chosen free at in
      record {
        taken = ap (λ (r : Accepted × Table). r.0) same ∙ accepts;
        holds = ap (λ (r : Accepted × Table). sock_of (slot_at r.1.slots i)) same ∙ gives.0;
      }

  -- A request `GET /ws HTTP/1.1` with header lines that are not empty and do not have the name of the
  -- key, and last a line with a key of 24 bytes without spaces, comes while there is a slot to give;
  -- there is memory, base64 has 28 bytes and a line feed for the hash, the response can be sent, and
  -- locks and thread can be made. Then `http_handler` hands the socket over and writes nothing, the
  -- client has been sent the response with the encoded hash of its key, and the chosen slot has its
  -- socket.
  pub http_handler-upgrade :
      (print_int : ℕ → List ℕ) (files : List WebFile) (index : WebFile) (name_max : ℕ)
      (lines : List (List ℕ)) (k : ℕ) (ks encoded : List ℕ) (i : ℕ) (s : Slot) (chosen : Table)
      → let key : List ℕ = k ∷ ks in
        let get = codes "GET /ws HTTP/1.1" in
        let request = header_text (get ∷ lines) (key_prefix ++ (key ++ (line_end ++ line_end))) in
        let response = ws_hs_accept ++ (encoded ++ (line_end ++ line_end)) in
        let handled =
          http_handler print_int files index name_max (λ r. (accept_request r).0) (some request) in
        2 ≤ name_max
        → AllLines lines
        → AllPlain is_eol key
        → AllPlain is_space key
        → length key ≡ ws_key_len
        → base64_encode (sha1 (key ++ magic_string)) ≡ some (encoded ++ (10 ∷ []))
        → length encoded ≡ 28
        → send_all results response 0 [] ≡ (sent (length response), response)
        → choose_slot t ≡ some (i, chosen)
        → slot_at chosen.slots i ≡ some s
        → (handled.websocket ≡ true)
          × (handled.effects ≡ [])
          × ((do_handshake sha1 base64_encode true true results request).1 ≡ response)
          × (sock_of (slot_at (accept_request request).1.slots i) ≡ some sock)
  unfolding header_text hand_over
  http_handler-upgrade print_int files index name_max lines k ks encoded i s chosen two ls eol space
        size e len all free at =
      let key : List ℕ = k ∷ ks in
      let get = codes "GET /ws HTTP/1.1" in
      let text = header_text (get ∷ lines) (key_prefix ++ key) in
      let request = header_text (get ∷ lines) (key_prefix ++ (key ++ (line_end ++ line_end))) in
      let response = ws_hs_accept ++ (encoded ++ (line_end ++ line_end)) in
      let whole : request ≡ text ++ (line_end ++ line_end) =
        header_text-append (get ∷ lines) (key_prefix ++ key) (line_end ++ line_end) in
      let ends =
        subst (λ r. bytes_equal (drop (length r - 4) r) (crlf ++ crlf) ≡ true) (sym whole)
          (ends_empty text) in
      let handed =
        http_handler-ws print_int files index name_max (λ r. (accept_request r).0) (drop 8 request)
          (omega arith) ends two in
      let made =
        (get_handshake_response-fits sha1 base64_encode (get ∷ lines) k ks line_end encoded
          (AllPlain-append is_eol get [] refl tt, refl, nameless, ls) eol space size e len).0 in
      let shaken = do_handshake-answer request response made all in
      let up = accept_request-IsUpgraded request response i s chosen shaken free at in
      let over = handed ∙ ap (hand_over print_int) up.taken in
      (
        ap (λ (h : Handled). h.websocket) over,
        ap (λ (h : Handled). h.effects) over,
        ap (λ (r : Option Bool × List ℕ). r.1) shaken,
        up.holds,
      )
