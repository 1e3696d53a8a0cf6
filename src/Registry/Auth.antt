-- ===== src/Registry/Auth.antt =====
-- What the dispatch does for a client that is not logged in, and for codes without a handler.
use basic_setup.Prelude.{
  if_both, ℕ, zero, suc, ◌+◌, ◌≤◌, ◌<◌, ◌≡◌, refl, ◌∙◌, Bool, true, false, Option, some, List, [],
  ◌∷◌, ◌++◌, ◌==◌, ap, if◌then◌else◌, arith, Bool-cases, inl, inr, ◌&&◌, not,
}
use basic_setup.Device.{Effect, ws_sendframe}
use basic_setup.Device.Op
use basic_setup.Registry.{
  ws_onopen, Item, insert_last, web_socket_add_handler_auth, handle_item, dispatch, ws_onmessage,
  err_unauthorized, err_cmd_notfound,
}

-- How many items have the code.
unfoldable pub matching : {H : Type 0} → ℕ → List (Item H) → ℕ
matching c [] = 0
matching c (cur ∷ rest) = let more = matching c rest in if cur.code == c then suc more else more

-- Every item that has the code wants a login.
unfoldable pub IsGuarded : {H : Type 0} → ℕ → List (Item H) → Type 0
IsGuarded c [] = Unit {0}
IsGuarded c (cur ∷ rest) = (cur.code ≡ c → cur.authenticated ≡ true) × IsGuarded c rest

-- `count` answers of one kind, one after the other.
unfoldable pub sends : {S : Type 0} → (Effect → S → S) → Effect → ℕ → S → S
sends send e zero s = s
sends send e (suc n) s = sends send e n (send e s)

module _ {S H : Type 0} (call : H → ℕ → List ℕ → ℕ → S → S) (logged : S → ℕ → Bool)
    (send : Effect → S → S) where
  -- Items with another code do not take part.
  dispatch_none :
      (items : List (Item H)) (client c : ℕ) (msg : List ℕ) (type count : ℕ) (s : S)
      → matching c items ≡ 0
      → dispatch call logged send items client c msg type count s ≡ (s, count)
  unfolding dispatch matching
  dispatch_none [] client c msg type count s h = refl
  dispatch_none (cur ∷ rest) client c msg type count s h =
      ground (arith, dispatch_none rest client c msg type count s)

  dispatch_refused :
      ((e : Effect) (s : S) (client : ℕ) → logged (send e s) client ≡ logged s client)
      → (items : List (Item H)) (client c : ℕ) (msg : List ℕ) (type count : ℕ) (s : S)
      → logged s client ≡ false
      → IsGuarded c items
      → dispatch call logged send items client c msg type count s ≡ (
        sends send (ws_sendframe (some client) (err_unauthorized c) Op.bin) (matching c items) s,
        count + matching c items,
      )
  unfolding dispatch matching sends IsGuarded
  dispatch_refused keep [] client c msg type count s h g = ground arith
  dispatch_refused keep (cur ∷ rest) client c msg type count s h g = ground (
    arith,
    keep refusal s client,
    dispatch_refused keep rest client c msg type count s h g.1,
    dispatch_refused keep rest client c msg type (count + 1) (send refusal s),
  )
    where
      refusal : Effect
      refusal = ws_sendframe (some client) (err_unauthorized c) Op.bin

  -- If sending a frame does not change who is logged in, a client that is not logged in gets, for
  -- a code that has handlers, all of which want a login, one "Unauthorized" frame for each of
  -- them, and no handler runs.
  pub ws_onmessage_refused :
      ((e : Effect) (s : S) (client : ℕ) → logged (send e s) client ≡ logged s client)
      → (items : List (Item H)) (client c : ℕ) (msg : List ℕ) (type : ℕ) (s : S)
      → logged s client ≡ false
      → IsGuarded c items
      → 0 < matching c items
      → ws_onmessage call logged send items client (c ∷ msg) type s
        ≡ sends send (ws_sendframe (some client) (err_unauthorized c) Op.bin) (matching c items) s
  unfolding ws_onmessage
  ws_onmessage_refused keep items client c msg type s h g m =
      ground (arith, dispatch_refused keep items client c msg type 0 s h g)

  -- A code without a handler is answered by one "Invalid command" frame, and nothing else happens.
  pub ws_onmessage_notfound :
      (items : List (Item H)) (client c : ℕ) (msg : List ℕ) (type : ℕ) (s : S)
      → matching c items ≡ 0
      → ws_onmessage call logged send items client (c ∷ msg) type s
        ≡ send (ws_sendframe (some client) (err_cmd_notfound c) Op.bin) s
  unfolding ws_onmessage
  ws_onmessage_notfound items client c msg type s h =
      rw (dispatch_none items client c msg type 0 s h)

  -- With one handler at most for each code, the two answers together.
  pub ws_onmessage_refusal :
      ((e : Effect) (s : S) (client : ℕ) → logged (send e s) client ≡ logged s client)
      → (items : List (Item H)) (client c : ℕ) (msg : List ℕ) (type : ℕ) (s : S)
      → logged s client ≡ false
      → IsGuarded c items
      → matching c items ≤ 1
      → ws_onmessage call logged send items client (c ∷ msg) type s
        ≡ send
            (ws_sendframe
              (some client)
              (if matching c items == 0 then err_cmd_notfound c else err_unauthorized c)
              Op.bin)
            s
  ws_onmessage_refusal keep items client c msg type s h g m =
      elim (Bool-cases (matching c items == 0)) [
        | inl e ↦ rw e (ws_onmessage_notfound items client c msg type s (ground arith))
        | inr e ↦
            let one : matching c items ≡ suc 0 = ground arith in
            rw e (
              ws_onmessage_refused keep items client c msg type s h g (omega arith)
              ∙ rw one (unfold sends in refl))
      ]

-- A handler that is added comes behind all earlier ones, so that messages reach them in the order
-- of their registration; without memory the list stays as it is.
pub add_handler-order :
    {H : Type 0} (alloc : Bool) (code : ℕ) (handler : H) (auth : Bool) (items : List (Item H))
    → (web_socket_add_handler_auth alloc code handler auth items).1 ≡ (
        if alloc
        then items ++ (record { code = code; authenticated = auth; handler = handler } ∷ [])
        else items)
unfolding web_socket_add_handler_auth
add_handler-order false code handler auth items = refl
add_handler-order {H} true code handler auth items = insert_last-append _ items
  where
    insert_last-append : (new : Item H) (l : List (Item H)) → insert_last new l ≡ l ++ (new ∷ [])
    insert_last-append new [] = refl
    insert_last-append new (x ∷ l) = ap (◌∷◌ x) (insert_last-append new l)

-- What every handler and every send keep, a message keeps.
module _ {ℓ} {S H : Type 0} (call : H → ℕ → List ℕ → ℕ → S → S) (logged : S → ℕ → Bool)
    (send : Effect → S → S) (P : S → Type ℓ)
    (call-P : (h : H) (client : ℕ) (msg : List ℕ) (type : ℕ) (s : S)
      → P s
      → P (call h client msg type s))
    (send-P : (client : Option ℕ) (msg : List ℕ) (type : ℕ) (s : S)
      → P s
      → P (send (ws_sendframe client msg type) s)) where
  handle_item-P :
      (cur : Item H) (client c : ℕ) (msg : List ℕ) (type : ℕ) (s : S)
      → P s
      → P (handle_item call logged send cur client c msg type s)
  unfolding handle_item
  handle_item-P cur client c msg type s p =
      elim (Bool-cases (cur.authenticated && not (logged s client))) [
        | inl e ↦ rw e (send-P _ _ _ s p)
        | inr e ↦ rw e (call-P cur.handler client msg type s p)
      ]

  dispatch-P :
      (items : List (Item H)) (client c : ℕ) (msg : List ℕ) (type count : ℕ) (s : S)
      → P s
      → P (dispatch call logged send items client c msg type count s).0
  unfolding dispatch
  dispatch-P [] client c msg type count s p = p
  dispatch-P (cur ∷ rest) client c msg type count s p = elim (Bool-cases (cur.code == c)) [
    | inl e ↦
        rw (e, dispatch)
          (dispatch-P rest client c msg type (count + 1) _
            (handle_item-P cur client c msg type s p))
    | inr e ↦ rw (e, dispatch) (dispatch-P rest client c msg type count s p)
  ]

  pub ws_onmessage-P :
      (items : List (Item H)) (client : ℕ) (msg : List ℕ) (type : ℕ) (s : S)
      → P s
      → P (ws_onmessage call logged send items client msg type s)
  unfolding ws_onmessage
  ws_onmessage-P items client [] type s p = p
  ws_onmessage-P items client (c ∷ msg) type s p =
      let after = dispatch-P items client c msg type 0 s p in
      elim (Bool-cases ((dispatch call logged send items client c msg type 0 s).1 == 0)) [
        | inl e ↦ rw e (send-P _ _ _ _ after)
        | inr e ↦ rw e after
      ]

  pub ws_onopen-P :
      (items : List (Item H)) (client : ℕ) (s : S)
      → P s
      → P (ws_onopen call logged send items client s)
  unfolding ws_onopen
  ws_onopen-P [] client s p = p
  ws_onopen-P (cur ∷ rest) client s p =
      ws_onopen-P rest client _
        (if_both P (cur.code == 0) _ _ (call-P cur.handler client [] 0 s p) p)
