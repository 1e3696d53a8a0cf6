-- ===== src/WebSocket/Connection/Delivery.antt =====
-- From the bytes of a client to the calls of `ws_onmessage`.
use basic_setup.Prelude.{
  ℕ, zero, suc, ◌≤◌, ◌<◌, ◌≡◌, ◌≢◌, refl, sym, ap, ◌∙◌, ◌⊎◌, inl, inr, true, false, Option, none,
  some, List, [], ◌∷◌, ◌++◌, append_assoc, append-nil, length, take, arith, not,
}
use basic_setup.Device.Op
use basic_setup.WebSocket.Reader.{Ahead, unread}
use basic_setup.WebSocket.ReadFrame.{max_frame_length}
use basic_setup.WebSocket.ReadFrame.Control.{msg_ctrl_size}
use basic_setup.WebSocket.NextFrame.{Peer, Wfd, message, hang_up, next_frame}
use basic_setup.WebSocket.NextFrame.Progress.{next_frame_end, next_frame-Fewer}
use basic_setup.WebSocket.NextFrame.Section.{Section, IsSection, AllSections, encode, text, asked}
use basic_setup.WebSocket.NextFrame.Message.{Received, next_frame-Received}
use basic_setup.WebSocket.Clients.{Table, slot_at}
use basic_setup.WebSocket.Clients.Accept.{sock_of}
use basic_setup.WebSocket.Connection.Ends.{Taken, establishconnection-Left}
use basic_setup.WebSocket.Connection.{
  ws_establishconnection, at_error, at_overrun, has_type, event, round, message_loop,
}

-- A message of a client: its type and its fragments.
pub record Message : Type 0 where
  pub type : ℕ
  pub first : Section
  pub others : List Section

pub record IsMessage (m : Message) : Type 0 where
  pub type_ok : (m.type ≡ Op.txt) ⊎ (m.type ≡ Op.bin)
  pub first_ok : IsSection m.first
  pub others_ok : AllSections m.others
  pub fits : length (text m.first m.others) ≤ max_frame_length

abbrev pub AllMessages : List Message → Type 0
AllMessages [] = Unit
AllMessages (m ∷ ms) = IsMessage m × AllMessages ms

-- The messages on the wire, and what follows.
abbrev pub stream : List Message → List ℕ → List ℕ
stream [] rest = rest
stream (m ∷ ms) rest = encode m.type m.first m.others (stream ms rest)

-- One call for each message, in their order.
abbrev pub deliver : {S : Type 0} → (List ℕ → ℕ → S → S) → List Message → S → S
deliver f [] s = s
deliver f (m ∷ ms) s = deliver f ms (f (text m.first m.others) m.type s)

abbrev pub ping_payloads : List Message → List (List ℕ)
ping_payloads [] = []
ping_payloads (m ∷ ms) = asked m.first m.others ++ ping_payloads ms

type_lem : (type k : ℕ) (o : Option ℕ) → o ≡ some type → type ≡ k → has_type k o ≡ true
unfolding has_type
type_lem type k o e same = ground arith

other_lem : (type k : ℕ) (o : Option ℕ) → o ≡ some type → type ≢ k → has_type k o ≡ false
unfolding has_type
other_lem type k o e n = ground arith

module _ {S : Type 0} (on_message : List ℕ → ℕ → S → S) where
  event_lem :
      (type : ℕ) (msg : List ℕ) (w : Wfd) (s : S)
      → (type ≡ Op.txt) ⊎ (type ≡ Op.bin)
      → w.frame_type ≡ some type
      → w.frame_size ≡ length msg
      → take (length msg) w.msg_data ≡ msg
      → w.reader.error ≡ false
      → event on_message w s ≡ some (on_message msg type s)
  unfolding event
  event_lem type msg w s t e size same fine =
      let whole : take w.frame_size w.msg_data ≡ msg = ap (λ n. take n w.msg_data) size ∙ same in
      let sound : not w.reader.error ≡ true = ap not fine in
      elim t [
        | inl txt ↦
            let is : has_type Op.txt w.frame_type ≡ true =
              type_lem type Op.txt w.frame_type e txt in
            rw (is, sound, whole, txt) refl
        | inr bin ↦
            let is : has_type Op.bin w.frame_type ≡ true =
              type_lem type Op.bin w.frame_type e bin in
            let other : has_type Op.txt w.frame_type ≡ false =
              other_lem type Op.txt w.frame_type e (ground (arith, bin)) in
            rw (is, other, sound, whole, bin) refl
      ]

  round_lem :
      (m : Message) (p : Peer) (fuel : ℕ) (w : Wfd) (s : S) (pongs : List (List ℕ)) (rest : List ℕ)
      → IsMessage m
      → Received m.type (text m.first m.others) pongs rest (next_frame p w)
      → message_loop on_message p (suc fuel) w s
        ≡ message_loop on_message p fuel
            (next_frame p w).1
            (on_message (text m.first m.others) m.type s)
  unfolding message_loop round
  round_lem m p fuel w s pongs rest v r =
      let handled =
        event_lem m.type (text m.first m.others) (next_frame p w).1 s v.type_ok r.has_type r.size
          r.content r.left.no_error in
      rw (r.outcome, round, handled) refl

  module _ (p : Peer) (memory : (n : ℕ) → p.realloc_ok n ≡ true)
      (answered : (n : ℕ) → p.pong_sent n ≡ true) (open_still : (n : ℕ) → p.closing n ≡ false) where
    message_loop_end :
        (fuel : ℕ) (w : Wfd) (s : S)
        → Ahead [] w.reader
        → ((message_loop on_message p (suc fuel) w s).0 ≡ some at_error)
          × ((message_loop on_message p (suc fuel) w s).2 ≡ s)
          × ((message_loop on_message p (suc fuel) w s).1.pongs ≡ w.pongs ++ [])
    unfolding message_loop round
    message_loop_end fuel w s a =
        let (gone, same) = next_frame_end p w a in
        rw (gone, round) (refl, refl, same ∙ sym (append-nil w.pongs))

    message_loop-deliver :
        (ms : List Message) (fuel : ℕ) (w : Wfd) (s : S)
        → AllMessages ms
        → length w.msg_ctrl ≡ msg_ctrl_size
        → Ahead (stream ms []) w.reader
        → unread w.reader < fuel
        → ((message_loop on_message p fuel w s).0 ≡ some at_error)
          × ((message_loop on_message p fuel w s).2 ≡ deliver on_message ms s)
          × ((message_loop on_message p fuel w s).1.pongs ≡ w.pongs ++ ping_payloads ms)
    message_loop-deliver ms zero w s v ctrl a less = absurd (omega arith)
    message_loop-deliver [] (suc fuel) w s v ctrl a less = message_loop_end fuel w s a
    message_loop-deliver (m ∷ ms) (suc fuel) w s (v, vs) ctrl a less =
        let r =
          next_frame-Received p memory answered open_still m.type (stream ms []) m.first m.others w
            v.type_ok v.first_ok v.others_ok v.fits ctrl a in
        let next = (next_frame p w).1 in
        let s' = on_message (text m.first m.others) m.type s in
        let pongs : next.pongs ++ ping_payloads ms ≡ w.pongs ++ ping_payloads (m ∷ ms) =
          ap (λ xs. xs ++ ping_payloads ms) r.answers
          ∙ append_assoc w.pongs (asked m.first m.others) (ping_payloads ms) in
        let fewer : unread next.reader < unread w.reader = elim (next_frame-Fewer p w a.within) [
          | inl e ↦ let no : some message ≡ some hang_up = sym r.outcome ∙ e in cc
          | inr f ↦ f.1
        ] in
        let rest =
          message_loop-deliver ms fuel next s' vs r.ctrl r.left (omega (arith, less, fewer)) in
        rw (round_lem m p fuel w s _ _ v r) (rest.0, rest.1, rest.2 ∙ pongs)

    -- A client sends messages of type TXT or BIN, each in fragments that are shorter than 65536 bytes
    -- and together at most 16 MiB long, with PING frames of less than 125 bytes before them, and then
    -- ends its stream. If no memory runs out, no PONG fails and the client stays open until then, the
    -- thread calls `ws_onmessage` behind `ws_onopen` once for each message, in their order and with
    -- the unmasked text, and it closes the socket.
    pub ws_establishconnection-deliver :
        (ms : List Message) (on_open : S → S) (i fd : ℕ) (w : Wfd) (t : Table) (s : S)
        → AllMessages ms
        → length w.msg_ctrl ≡ msg_ctrl_size
        → Ahead (stream ms []) w.reader
        → Taken i fd t
        → let r = ws_establishconnection p on_open on_message i w t s in
          (r.0 ≡ some at_error)
          × (r.2 ≡ deliver on_message ms (on_open s))
          × (sock_of (slot_at r.1.0.slots i) ≡ none)
          × (r.1.0.closed ≡ t.closed ++ (fd ∷ []))
    unfolding ws_establishconnection
    ws_establishconnection-deliver ms on_open i fd w t s v ctrl a k =
        let d =
          message_loop-deliver ms (suc (unread w.reader)) w (on_open s) v ctrl a (omega arith) in
        elim (establishconnection-Left p on_open on_message i fd w t s a.within k) [
          | inl e ↦ let no : some at_error ≡ some at_overrun = sym d.0 ∙ e in cc
          | inr (e, free, shut) ↦ (d.0, d.1, free, shut)
        ]
