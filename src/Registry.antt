-- ===== src/Registry.antt =====
-- components/web/src/web-socket-handler.c: the list of message handlers and its dispatch.
-- A handler pointer is a value of `H`, and `call` runs it; the state `S`, the login flag of a
-- client and the sending of a frame belong to the other modules.
pub mod Auth
use basic_setup.Prelude.{
  ℕ, ◌+◌, Bool, true, false, not, ◌&&◌, Option, some, none, List, [], ◌∷◌, ◌++◌, ◌==◌,
  if◌then◌else◌,
}
use basic_setup.Device.{Effect, ws_sendframe}
use basic_setup.Device.Op
use basic_setup.Device.MsgId
use basic_setup.Config.{codes}

-- `ws_item_t`.
pub record Item {ℓ} (H : Type ℓ) : Type ℓ where
  pub code : ℕ
  pub authenticated : Bool
  pub handler : H

-- The walk to the end of the list, and the insertion behind the last item.
unfoldable pub insert_last {ℓ} : {H : Type ℓ} → Item H → List (Item H) → List (Item H)
insert_last new [] = new ∷ []
insert_last new (cur ∷ rest) = cur ∷ insert_last new rest

-- `alloc` is whether `calloc` finds memory. The result is `true` for 0 and `false` for -1.
unfoldable pub web_socket_add_handler_auth {ℓ} :
    {H : Type ℓ} → Bool → ℕ → H → Bool → List (Item H) → Bool × List (Item H)
unfolding insert_last
web_socket_add_handler_auth alloc code handler authenticated items =
    if alloc
    then (
      true,
      insert_last (record { code = code; authenticated = authenticated; handler = handler }) items,
    )
    else (false, items)

unfoldable pub web_socket_add_handler {ℓ} :
    {H : Type ℓ} → Bool → ℕ → H → List (Item H) → Bool × List (Item H)
unfolding web_socket_add_handler_auth
web_socket_add_handler alloc code handler = web_socket_add_handler_auth alloc code handler false

-- The normal close code, 1000, to every client.
abbrev pub close_all_frame : Effect
close_all_frame = ws_sendframe none (3 ∷ 232 ∷ []) Op.clse

-- The static buffers with their first two bytes set.
abbrev pub err_unauthorized : ℕ → List ℕ
err_unauthorized c = c ∷ MsgId.message ∷ codes "Unauthorized"

abbrev pub err_cmd_notfound : ℕ → List ℕ
err_cmd_notfound c = c ∷ MsgId.message ∷ codes "Invalid command"

module _ {S H : Type 0} (call : H → ℕ → List ℕ → ℕ → S → S) (logged : S → ℕ → Bool)
    (send : Effect → S → S) where
  -- The loop of `ws_onopen`.
  unfoldable pub ws_onopen : List (Item H) → ℕ → S → S
  ws_onopen [] client s = s
  ws_onopen (cur ∷ rest) client s =
      ws_onopen rest client (if cur.code == 0 then call cur.handler client [] 0 s else s)

  -- One item of the list that has the code of the message.
  unfoldable pub handle_item : Item H → ℕ → ℕ → List ℕ → ℕ → S → S
  handle_item cur client c msg type s =
      if cur.authenticated && not (logged s client)
      then send (ws_sendframe (some client) (err_unauthorized c) Op.bin) s
      else call cur.handler client msg type s

  -- The loop of `ws_onmessage`: the state and `handledCount`.
  unfoldable pub dispatch : List (Item H) → ℕ → ℕ → List ℕ → ℕ → ℕ → S → S × ℕ
  unfolding handle_item
  dispatch [] client c msg type count s = (s, count)
  dispatch (cur ∷ rest) client c msg type count s =
      dispatch rest client c msg type (if cur.code == c then count + 1 else count)
        (if cur.code == c then handle_item cur client c msg type s else s)

  -- A message without a byte is dropped; the first byte is the code.
  unfoldable pub ws_onmessage : List (Item H) → ℕ → List ℕ → ℕ → S → S
  unfolding dispatch
  ws_onmessage items client [] type s = s
  ws_onmessage items client (c ∷ msg) type s =
      let (s', count) = dispatch items client c msg type 0 s in
      if count == 0 then send (ws_sendframe (some client) (err_cmd_notfound c) Op.bin) s' else s'
