-- ===== src/Gtk/Service.antt =====
-- The connection of the desktop client, clients/gtk/websocket_client.c: the callback of
-- libwebsockets, sending, and the thread that connects and connects again. What libwebsockets does
-- is given: whether a connection can be begun, and the reasons it calls the callback for.
use basic_setup.Prelude.{
  ℕ, ◌+◌, ◌*◌, ◌≡◌, refl, sym, ap, ◌∙◌, Bool, true, false, ◌||◌, List, [], ◌∷◌, ◌++◌, if◌then◌else◌,
  if_both, if_cases, arith, Bool-cases, inl, inr,
}
use basic_setup.Gtk.{Client, ClientHandler, websocket_callback}

-- `LWS_CALLBACK_CLIENT_...`; `receives` has whether the frame is binary, and its bytes.
pub data Reason : Type 0 where
  established writeable closed connection_error other_reason : Reason
  receives : Bool → List ℕ → Reason

-- The variables of the file, with what its calls have done: `websocket` is whether it is not NULL,
-- `callback` whether `on_message_callback` is set, `texts` are its arguments, `written` those of
-- `lws_write`, true for a binary frame, and `slept` is in seconds.
pub record Desktop : Type 0 where
  pub client : Client
  pub handlers : List (ℕ × ClientHandler)
  pub callback : Bool
  pub websocket : Bool
  pub interrupted : Bool
  pub texts : List (List ℕ)
  pub written : List (Bool × List ℕ)
  pub attempts : ℕ
  pub slept : ℕ

-- The variables at the start, behind `websocket_client_init` and with the handlers of the program.
abbrev pub initial : List (ℕ × ClientHandler) → Client → Desktop
initial handlers client = record {
  client = client;
  handlers = handlers;
  callback = false;
  websocket = false;
  interrupted = false;
  texts = [];
  written = [];
  attempts = 0;
  slept = 0;
}

unfoldable pub websocket_set_on_message : Desktop → Desktop
websocket_set_on_message d = record d { callback = true }

-- `websocket_callback`, for each reason.
unfoldable pub on_reason : Reason → Desktop → Desktop
unfolding websocket_callback
on_reason established d = d
on_reason (receives true msg) d = record d { client = websocket_callback d.handlers msg d.client }
on_reason (receives false msg) d =
    if d.callback then record d { texts = d.texts ++ (msg ∷ []) } else d
on_reason writeable d = d
on_reason closed d = record d { websocket = false }
on_reason connection_error d = record d { websocket = false }
on_reason other_reason d = d

-- A call of `lws_service`.
unfoldable pub lws_service : List Reason → Desktop → Desktop
unfolding on_reason
lws_service [] d = d
lws_service (r ∷ reasons) d = lws_service reasons (on_reason r d)

-- `lws_client_connect_via_info` sets `websocket` if the connection could be begun.
unfoldable pub connect_websocket : Bool → Desktop → Desktop
connect_websocket begun d =
    if d.websocket then d else record d { websocket = begun; attempts = d.attempts + 1 }

unfoldable pub websocket_send_message : List ℕ → Desktop → Desktop
websocket_send_message message d =
    if d.websocket then record d { written = d.written ++ ((false, message) ∷ []) } else d

unfoldable pub websocket_send_binary : List ℕ → Desktop → Desktop
websocket_send_binary buf d =
    if d.websocket then record d { written = d.written ++ ((true, buf) ∷ []) } else d

-- What happens in one turn of the loop: `stop` is whether `sigint_handler` or
-- `websocket_client_stop` runs before its end.
pub record Visit : Type 0 where
  pub begun : Bool
  pub reasons : List Reason
  pub stop : Bool

unfoldable pub service_turn : Visit → Desktop → Desktop
unfolding connect_websocket lws_service
service_turn v d =
    let served = lws_service v.reasons (connect_websocket v.begun d) in
    let met = record served { interrupted = served.interrupted || v.stop } in
    if met.websocket then met else record met { slept = met.slept + 3 }

-- `websocket_service_loop`, with whether it has returned.
unfoldable pub websocket_service_loop : List Visit → Desktop → Bool × Desktop
unfolding service_turn
websocket_service_loop [] d = (d.interrupted, d)
websocket_service_loop (v ∷ visits) d =
    let rest = websocket_service_loop visits (service_turn v d) in
    if d.interrupted then (true, d) else rest

-- Between two turns: with a connection one attempt more than pauses, without one as many.
record Paced (d : Desktop) : Type 0 where
  up : d.websocket ≡ true → 3 * d.attempts ≡ d.slept + 3
  down : d.websocket ≡ false → 3 * d.attempts ≡ d.slept

-- Inside of a turn.
abbrev Within : Desktop → Type 0
Within d = 3 * d.attempts ≡ d.slept + 3

connect-Within : (begun : Bool) (d : Desktop) → Paced d → Within (connect_websocket begun d)
unfolding connect_websocket
connect-Within begun d p =
    if_cases Within d.websocket _ _ (λ e. p.up e) (λ e. omega (arith, p.down e))

on_reason-Within : (r : Reason) (d : Desktop) → Within d → Within (on_reason r d)
unfolding on_reason
on_reason-Within established d w = w
on_reason-Within (receives true msg) d w = w
on_reason-Within (receives false msg) d w = if_both Within d.callback _ _ w w
on_reason-Within writeable d w = w
on_reason-Within closed d w = w
on_reason-Within connection_error d w = w
on_reason-Within other_reason d w = w

lws_service-Within :
    (reasons : List Reason) (d : Desktop) → Within d → Within (lws_service reasons d)
unfolding lws_service
lws_service-Within [] d w = w
lws_service-Within (r ∷ reasons) d w =
    lws_service-Within reasons (on_reason r d) (on_reason-Within r d w)

service_turn-Paced : (v : Visit) (d : Desktop) → Paced d → Paced (service_turn v d)
unfolding service_turn
service_turn-Paced v d p =
    let served = lws_service v.reasons (connect_websocket v.begun d) in
    let w =
      lws_service-Within v.reasons (connect_websocket v.begun d) (connect-Within v.begun d p) in
    if_cases Paced served.websocket _ _
      (λ e. record { up = λ _. w; down = λ n. absurd (ground arith) })
      (λ e. record { up = λ n. absurd (ground arith); down = λ _. w })

loop-Paced :
    (visits : List Visit) (d : Desktop) → Paced d → Paced (websocket_service_loop visits d).1
unfolding websocket_service_loop
loop-Paced [] d p = p
loop-Paced (v ∷ visits) d p =
    if_both (λ (r : Bool × Desktop). Paced r.1) d.interrupted _ _ p
      (loop-Paced visits (service_turn v d) (service_turn-Paced v d p))

-- From the start, whatever libwebsockets does in however many turns: the thread has slept exactly
-- 3 seconds for each attempt to connect, except that it has not yet slept for the last one while
-- there is a connection.
pub websocket_service_loop-paced :
    (visits : List Visit) (handlers : List (ℕ × ClientHandler)) (client : Client)
    → let d = (websocket_service_loop visits (initial handlers client)).1 in
      3 * d.attempts ≡ d.slept + (if d.websocket then 3 else 0)
websocket_service_loop-paced visits handlers client =
    let d = (websocket_service_loop visits (initial handlers client)).1 in
    let p =
      loop-Paced visits (initial handlers client)
        (record { up = λ n. absurd (ground arith); down = λ n. omega arith }) in
    if_cases (λ n. 3 * d.attempts ≡ d.slept + n) d.websocket _ _ p.up (λ e. omega (arith, p.down e))

service_turn-stop :
    (v : Visit) (d : Desktop) → v.stop ≡ true → (service_turn v d).interrupted ≡ true
unfolding service_turn
service_turn-stop v d stop =
    let served = lws_service v.reasons (connect_websocket v.begun d) in
    let set : (served.interrupted || v.stop) ≡ true = ground (arith, stop) in
    if_both (λ (d : Desktop). d.interrupted ≡ true) served.websocket _ _ set set

loop-interrupted :
    (visits : List Visit) (d : Desktop)
    → d.interrupted ≡ true
    → websocket_service_loop visits d ≡ (true, d)
unfolding websocket_service_loop
loop-interrupted [] d e = ap (λ b. (b, d)) e
loop-interrupted (v ∷ visits) d e = simp e refl

loop-going :
    (v : Visit) (visits : List Visit) (d : Desktop)
    → d.interrupted ≡ false
    → websocket_service_loop (v ∷ visits) d ≡ websocket_service_loop visits (service_turn v d)
unfolding websocket_service_loop
loop-going v visits d e =
    if_cases (λ (r : Bool × Desktop). r ≡ websocket_service_loop visits (service_turn v d))
      d.interrupted _ _ (λ t. absurd (ground arith)) (λ f. refl)

stopped :
    (v : Visit) (d : Desktop)
    → v.stop ≡ true
    → (r : Desktop) × ((ws : List Visit) → websocket_service_loop (v ∷ ws) d ≡ (true, r))
stopped v d stop = elim (Bool-cases d.interrupted) [
  | inl e ↦ (d, λ ws. loop-interrupted (v ∷ ws) d e)
  | inr e ↦ (
    service_turn v d,
    λ ws. loop-going v ws d e ∙ loop-interrupted ws (service_turn v d) (service_turn-stop v d stop),
  )
]

-- A turn in which the client is stopped is the last one: the thread returns, and what libwebsockets
-- would have done later does not matter.
pub websocket_service_loop-stop :
    (visits later : List Visit) (v : Visit) (d : Desktop)
    → v.stop ≡ true
    → ((websocket_service_loop (visits ++ (v ∷ later)) d).0 ≡ true)
      × (websocket_service_loop (visits ++ (v ∷ later)) d
          ≡ websocket_service_loop (visits ++ (v ∷ [])) d)
websocket_service_loop-stop [] later v d stop =
    let (r, ends) = stopped v d stop in
    (ap (λ (x : Bool × Desktop). x.0) (ends later), ends later ∙ sym (ends []))
websocket_service_loop-stop (u ∷ visits) later v d stop = elim (Bool-cases d.interrupted) [
  | inl e ↦
      let ends = λ (ws : List Visit). loop-interrupted (u ∷ ws) d e in
      let all = ends (visits ++ (v ∷ later)) in
      (ap (λ (x : Bool × Desktop). x.0) all, all ∙ sym (ends (visits ++ (v ∷ []))))
  | inr e ↦
      let (done, same) = websocket_service_loop-stop visits later v (service_turn u d) stop in
      let all = loop-going u (visits ++ (v ∷ later)) d e in
      (
        ap (λ (x : Bool × Desktop). x.0) all ∙ done,
        all ∙ same ∙ sym (loop-going u (visits ++ (v ∷ [])) d e),
      )
]
