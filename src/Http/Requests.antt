-- ===== src/Http/Requests.antt =====
-- Which file a request gets, and which request is handed to the WebSocket layer.
use basic_setup.Prelude.{
  ℕ, ◌-◌, ◌≤◌, ◌<◌, ◌≡◌, ◌≢◌, refl, ap, ◌∙◌, true, false, ◌&&◌, some, List, [], ◌∷◌, ◌++◌, length,
  take, drop, take-append, take_all, ltb, leb, ◌==◌, if◌then◌else◌, arith, Bool-cases, Option-cases,
  inl, inr,
}
use basic_setup.Config.{codes}
use basic_setup.Storage.{bytes_equal}
use basic_setup.Storage.Password.{bytes_equal_iff}
use basic_setup.Http.{
  WebFile, Accepted, accepted, too_many_client, refused, crlf, space_at, name_matches, find_file,
  reject, serve, hand_over, respond, http_handler,
}

-- A path without a space and without a terminator.
unfoldable pub IsPath : List ℕ → Type 0
IsPath [] = Unit {0}
IsPath (c ∷ cs) = (c ≢ 32) × (c ≢ 0) × IsPath cs

space_at-append :
    (path rest : List ℕ) → IsPath path → space_at (path ++ (32 ∷ rest)) ≡ some (length path)
unfolding IsPath space_at
space_at-append [] rest p = elim (Option-cases (space_at rest)) [
  | inl e ↦ rw (e, space_at) refl
  | inr (n, e) ↦ rw (e, space_at) refl
]
space_at-append (c ∷ path) rest (space, zero_byte, p) =
    let found = space_at-append path rest p in
    let not_space : (c == 32) ≡ false = ground (arith, space) in
    let not_zero : (c == 0) ≡ false = ground (arith, zero_byte) in
    rw (found, space_at, not_space, not_zero) refl

-- No file of the list has a name that starts with the path.
unfoldable pub NoMatch : List ℕ → List WebFile → Type 0
NoMatch path [] = Unit {0}
NoMatch path (f ∷ files) = (name_matches path f ≡ false) × NoMatch path files

find_file-none :
    (path : List ℕ) (f : WebFile) (files : List WebFile)
    → NoMatch path files
    → find_file path f files ≡ f
unfolding find_file NoMatch
find_file-none path f [] h = refl
find_file-none path f (g ∷ files) (h, hs) = rw (h, find_file) (find_file-none path f files hs)

find_file-last :
    (path : List ℕ) (index f : WebFile) (before after : List WebFile)
    → name_matches path f ≡ true
    → NoMatch path after
    → find_file path index (before ++ (f ∷ after)) ≡ f
unfolding find_file
find_file-last path index f [] after e h = rw (e, find_file) (find_file-none path f after h)
find_file-last path index f (g ∷ before) after e h =
    find_file-last path (if name_matches path g then g else index) f before after e h

name_matches-same : (path : List ℕ) (f : WebFile) → f.name ≡ path → name_matches path f ≡ true
unfolding name_matches
name_matches-same path f e =
    (bytes_equal_iff _ path).1 (take_all (length path) f.name (ap length e) ∙ e)

module _ (print_int : ℕ → List ℕ) (files : List WebFile) (index : WebFile) (name_max : ℕ)
    (ws_accept : List ℕ → Accepted) where
  -- A GET request of at least 18 bytes that ends with an empty line and asks for the name of a
  -- file gets that file, if no later file has a name that starts with it, and if it has two bytes
  -- at least, is no longer than the longest name, has no space or zero in it and does not start
  -- with "ws".
  pub http_handler-file :
      (path rest : List ℕ) (f : WebFile) (before after : List WebFile)
      → let request = codes "GET /" ++ (path ++ (32 ∷ rest)) in
        18 ≤ length request
        → bytes_equal (drop (length request - 4) request) (crlf ++ crlf) ≡ true
        → IsPath path
        → 1 < length path
        → length path ≤ name_max
        → bytes_equal (take 2 path) (codes "ws") ≡ false
        → files ≡ before ++ (f ∷ after)
        → f.name ≡ path
        → NoMatch path after
        → http_handler print_int files index name_max ws_accept (some request) ≡ serve print_int f
  unfolding http_handler respond
  http_handler-file path rest f before after long ends p two fits http listed name later =
      let request = codes "GET /" ++ (path ++ (32 ∷ rest)) in
      let short : ltb (length request) 18 ≡ false = ground (arith, long) in
      let get : bytes_equal (codes "GET") (codes "GET") ≡ true = (bytes_equal_iff _ _).1 refl in
      let found = space_at-append path rest p in
      let taken : take (length path) (path ++ (32 ∷ rest)) ≡ path =
        take-append (length path) path (32 ∷ rest) refl in
      let lower : ltb 1 (length path) ≡ true = ground (arith, two) in
      let upper : leb (length path) name_max ≡ true = ground (arith, fits) in
      let last = find_file-last path index f before after (name_matches-same path f name) later in
      rw (short, ends, get, found, taken, lower, upper, http, listed, last) refl

  -- A GET request for "ws" of at least 18 bytes that ends with an empty line is given to `ws_accept`,
  -- if the longest name has two bytes at least.
  pub http_handler-ws :
      (rest : List ℕ)
      → let request = codes "GET /ws " ++ rest in
        18 ≤ length request
        → bytes_equal (drop (length request - 4) request) (crlf ++ crlf) ≡ true
        → 2 ≤ name_max
        → http_handler print_int files index name_max ws_accept (some request)
          ≡ hand_over print_int (ws_accept request)
  unfolding http_handler respond
  http_handler-ws rest long ends fits =
      let request = codes "GET /ws " ++ rest in
      let short : ltb (length request) 18 ≡ false = ground (arith, long) in
      let get : bytes_equal (codes "GET") (codes "GET") ≡ true = (bytes_equal_iff _ _).1 refl in
      let found = space_at-append (codes "ws") rest (
        unfold IsPath in
        (
          (λ e. absurd (omega arith)),
          (λ e. absurd (omega arith)),
          ((λ e. absurd (omega arith)), (λ e. absurd (omega arith)), tt),
        )) in
      let upper : leb 2 name_max ≡ true = ground (arith, fits) in
      let ws : bytes_equal (codes "ws") (codes "ws") ≡ true = (bytes_equal_iff _ _).1 refl in
      rw (short, ends, get, found, upper, ws) refl

  hand_over-websocket :
      (answer : Accepted)
      → (hand_over print_int answer).websocket ≡ true
      → (answer ≡ accepted) × ((hand_over print_int answer).effects ≡ [])
  unfolding hand_over reject
  hand_over-websocket accepted h = (refl, refl)
  hand_over-websocket too_many_client h = cc
  hand_over-websocket refused h = cc

  respond-websocket :
      (request path : List ℕ)
      → let handled = respond print_int files index name_max ws_accept request path in
        handled.websocket ≡ true → (ws_accept request ≡ accepted) × (handled.effects ≡ [])
  unfolding respond serve
  respond-websocket request path h =
      let in_range = ltb 1 (length path) && leb (length path) name_max in
      elim (Bool-cases (in_range && bytes_equal (take 2 path) (codes "ws"))) [
        | inl e ↦ rw e (hand_over-websocket (ws_accept request) (rw e at h))
        | inr e ↦ cc (rw e at h)
      ]

  -- A request is handed over only if `ws_accept` has taken it, and then nothing was written.
  pub http_handler-websocket :
      (request : List ℕ)
      → let handled = http_handler print_int files index name_max ws_accept (some request) in
        handled.websocket ≡ true → (ws_accept request ≡ accepted) × (handled.effects ≡ [])
  unfolding http_handler
  http_handler-websocket request h = ground (arith, respond-websocket request)
