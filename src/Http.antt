-- ===== src/Http.antt =====
-- components/web/src/web-server.c: one HTTP request, from `recv` to the response or the hand-over to
-- the WebSocket layer. The table of files is generated, so it is a parameter, and so is `ws_accept`.
pub mod Requests
pub mod Listen
pub mod Thread
use basic_setup.Prelude.{
  ℕ, zero, suc, ◌+◌, ◌-◌, Bool, true, false, not, ◌&&◌, ◌||◌, Option, none, some, List, [], ◌∷◌,
  ◌++◌, length, take, drop, ltb, leb, ◌==◌, if◌then◌else◌,
}
use basic_setup.Config.{codes}
use basic_setup.Storage.{bytes_equal}

-- `webfs_t`, with the bytes of `web_bin_start` at its offset.
pub record WebFile : Type 0 where
  pub name : List ℕ
  pub type : List ℕ
  pub gzip : Bool
  pub body : List ℕ

-- What leaves on `client_fd`.
pub data HttpEffect : Type 0 where
  write : List ℕ → HttpEffect
  close : HttpEffect

-- The results of `ws_accept`: ESP_OK, WS_ERR_TOO_MANY_CLIENT, or another error.
pub data Accepted : Type 0 where
  accepted too_many_client refused : Accepted

-- ESP_OK or WEBSOCKET_HANDLER, the effects, and whether `http_buf[-1]` was written.
pub record Handled : Type 0 where
  pub websocket : Bool
  pub effects : List HttpEffect
  pub fault : Bool

unfoldable pub status_line : ℕ → List ℕ
status_line code =
    if code == 200
    then codes "200 OK"
    else (if code == 429
        then codes "429 Too Many Requests"
        else (if code == 400
            then codes "400 Bad Request"
            else (if code == 501 then codes "501 Not Implemented" else codes "500 Server Error")))

abbrev pub crlf : List ℕ
crlf = 13 ∷ 10 ∷ []

-- The length of the text before the first space, if that comes before the terminator.
unfoldable pub space_at : List ℕ → Option ℕ
space_at [] = none
space_at (c ∷ cs) = elim (space_at cs) [
  | none ↦ if c == 32 then some 0 else none
  | some n ↦ if c == 32 then some 0 else (if c == 0 then none else some (suc n))
]

-- `strncmp(name, path, path_len) == 0`, `path` being as long as `path_len`.
unfoldable pub name_matches : List ℕ → WebFile → Bool
name_matches path f = bytes_equal (take (length path) f.name) path

-- The loop over `web_files`: the last file that matches.
unfoldable pub find_file : List ℕ → WebFile → List WebFile → WebFile
unfolding name_matches
find_file path f [] = f
find_file path f (tmpf ∷ rest) = find_file path (if name_matches path tmpf then tmpf else f) rest

-- `print_int` is what `sprintf` prints for %d.
module _ (print_int : ℕ → List ℕ) where
  unfoldable pub http_response : List ℕ → ℕ → List ℕ → ℕ → Bool → Bool → List HttpEffect
  unfolding status_line
  http_response type size body code is_gzip cache =
      (write (
          codes "HTTP/1.1 "
          ++ (status_line code
              ++ (crlf
                  ++ (codes "Content-Type: "
                      ++ (type
                          ++ (crlf
                              ++ (codes "Content-Length: "
                                  ++ (print_int size
                                      ++ (crlf ++ (codes "Connection: Close" ++ crlf))))))))))
        ∷ (if is_gzip then write (codes "Content-Encoding: gzip" ++ crlf) ∷ [] else []))
      ++ ((if cache then write (codes "Cache-Control: public, max-age=86400" ++ crlf) ∷ [] else [])
          ++ (write crlf ∷ (if ltb 0 size then write body ∷ [] else [])))

  -- A response without a body, and the label `jmp_end`.
  unfoldable pub reject : ℕ → Bool → Handled
  unfolding http_response
  reject code fault = record {
    websocket = false;
    effects = http_response (codes "text/html") 0 [] code false false ++ (close ∷ []);
    fault = fault;
  }

  unfoldable pub serve : WebFile → Handled
  unfolding http_response
  serve f = record {
    websocket = false;
    effects = http_response f.type (length f.body) f.body 200 f.gzip true ++ (close ∷ []);
    fault = false;
  }

  -- The hand-over, by the result of `ws_accept`, which closes the socket itself if it refuses.
  unfoldable pub hand_over : Accepted → Handled
  unfolding reject
  hand_over accepted = record { websocket = true; effects = []; fault = false }
  hand_over too_many_client = reject 429 false
  hand_over refused = record { websocket = false; effects = []; fault = false }

  module _ (files : List WebFile) (index : WebFile) (name_max : ℕ)
      (ws_accept : List ℕ → Accepted) where
    unfoldable pub respond : List ℕ → List ℕ → Handled
    unfolding hand_over serve find_file
    respond request path =
        let in_range = ltb 1 (length path) && leb (length path) name_max in
        if in_range && bytes_equal (take 2 path) (codes "ws")
        then hand_over (ws_accept request)
        else serve (if in_range then find_file path index files else index)

    -- `http_handler`, on what `recv` gives: `none` is -1.
    unfoldable pub http_handler : Option (List ℕ) → Handled
    unfolding respond reject space_at
    http_handler none = reject 400 true
    http_handler (some request) =
        let path = drop 5 request in
        if ltb (length request) 18
        then reject 400 false
        else (if not (bytes_equal (drop (length request - 4) request) (crlf ++ crlf))
            then reject 400 false
            else (if not (bytes_equal (take 3 request) (codes "GET"))
                then reject 501 false
                else (elim (space_at path) [
                  | none ↦ reject 400 false
                  | some n ↦ respond request (take n path)
                ])))
