-- ===== src/Tests/Handshake.antt =====
-- The theorems on the handshake, for requests with one and two lines before the key.
use basic_setup.Prelude.{
  none, arith, ℕ, ◌+◌, ◌≡◌, refl, true, Option, some, List, [], ◌∷◌, ◌++◌, length, replicate,
}
use basic_setup.Config.{codes}
use basic_setup.Storage.{bytes_equal}
use basic_setup.Http.{WebFile, http_handler}
use basic_setup.WebSocket.Clients.{Slot, ws_unused, web_socket_main, slot_at, choose_slot}
use basic_setup.WebSocket.Clients.Accept.{sock_of}
use basic_setup.WebSocket.Sending.{send_all}
use basic_setup.Session.Upgrade.{accept_request, http_handler-upgrade}
use basic_setup.WebSocket.Handshake.{
  do_handshake, is_eol, is_space, line_end, ws_hs_accept, ws_hs_acclen, answer,
  get_handshake_response, contains,
}
use basic_setup.WebSocket.Handshake.Response.{
  AllPlain-append, AllLines, header_text, key_prefix, get_handshake_response-fits,
}

-- Stand-ins for SHA-1 and for the encoding of its 20 bytes.
abbrev sha1 : List ℕ → List ℕ
sha1 text = replicate 20 (length text)

abbrev base64_encode : List ℕ → Option (List ℕ)
base64_encode bytes = some (replicate 28 65 ++ (10 ∷ []))

abbrev lines : List (List ℕ)
lines = codes "GET /ws HTTP/1.1" ∷ codes "Upgrade: websocket" ∷ []

lines-AllLines : AllLines lines
unfolding contains bytes_equal
lines-AllLines = (
  AllPlain-append is_eol (codes "GET /ws HTTP/1.1") [] refl tt,
  refl,
  refl,
  (AllPlain-append is_eol (codes "Upgrade: websocket") [] refl tt, refl, refl, tt),
)

get_handshake_response-fits_example :
    let request =
      header_text lines
        (key_prefix ++ (codes "dGhlIHNhbXBsZSBub25jZQ==" ++ (line_end ++ line_end))) in
    let response = ws_hs_accept ++ (replicate 28 65 ++ (line_end ++ line_end)) in
    (get_handshake_response sha1 base64_encode true true request ≡ answer response)
    × (length response + 1 ≡ ws_hs_acclen)
get_handshake_response-fits_example =
    get_handshake_response-fits sha1 base64_encode lines 100 (codes "GhlIHNhbXBsZSBub25jZQ==")
      line_end (replicate 28 65) lines-AllLines
      (AllPlain-append is_eol (codes "dGhlIHNhbXBsZSBub25jZQ==") [] refl tt)
      (AllPlain-append is_space (codes "dGhlIHNhbXBsZSBub25jZQ==") [] refl tt) refl refl refl

print_int : ℕ → List ℕ
print_int n = n ∷ []

abbrev index : WebFile
index = record { name = codes "index"; type = codes "text/html"; gzip = true; body = [] }

abbrev header_lines : List (List ℕ)
header_lines = codes "Upgrade: websocket" ∷ []

header_lines-AllLines : AllLines header_lines
unfolding contains bytes_equal
header_lines-AllLines =
    (AllPlain-append is_eol (codes "Upgrade: websocket") [] refl tt, refl, refl, tt)

abbrev unused : Slot
unused = record {
  client_sock = none;
  state = ws_unused;
  close_thrd = true;
  is_login = true;
  last_pong_id = none;
  current_ping_id = none;
  conn_seq = 4294967295;
}

free_slot : choose_slot web_socket_main ≡ some (0, web_socket_main)
unfolding choose_slot web_socket_main
free_slot = refl

first_unused : slot_at web_socket_main.slots 0 ≡ some unused
unfolding slot_at web_socket_main
first_unused = refl

http_handler-upgrade_example :
    let key = codes "dGhlIHNhbXBsZSBub25jZQ==" in
    let request =
      header_text
        (codes "GET /ws HTTP/1.1" ∷ header_lines)
        (key_prefix ++ (key ++ (line_end ++ line_end))) in
    let response = ws_hs_accept ++ (replicate 28 65 ++ (line_end ++ line_end)) in
    let accept = accept_request sha1 base64_encode (some 129 ∷ []) 7 web_socket_main in
    let handled = http_handler print_int [] index 18 (λ r. (accept r).0) (some request) in
    (handled.websocket ≡ true)
    × (handled.effects ≡ [])
    × ((do_handshake sha1 base64_encode true true (some 129 ∷ []) request).1 ≡ response)
    × (sock_of (slot_at (accept request).1.slots 0) ≡ some 7)
http_handler-upgrade_example =
    http_handler-upgrade sha1 base64_encode (some 129 ∷ []) 7 web_socket_main print_int [] index 18
      header_lines 100 (codes "GhlIHNhbXBsZSBub25jZQ==") (replicate 28 65) 0 unused web_socket_main
      (omega arith) header_lines-AllLines
      (AllPlain-append is_eol (codes "dGhlIHNhbXBsZSBub25jZQ==") [] refl tt)
      (AllPlain-append is_space (codes "dGhlIHNhbXBsZSBub25jZQ==") [] refl tt) refl refl refl
      (unfold send_all in refl) free_slot first_unused
