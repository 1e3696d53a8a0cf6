-- ===== src/WebSocket/NextFrame/Verdicts.antt =====
-- The type of a message, and the error flag, at the end of a turn of `next_frame`.
use basic_setup.Prelude.{
  ℕ, ◌+◌, ◌/◌, ◌%◌, ◌≡◌, refl, sym, ap, ◌∙◌, subst, ◌⊎◌, inl, inr, Bool, true, false, not, ◌&&◌,
  ◌||◌, Option, none, some, ltb, ◌==◌, arith, if_both, if_cases, Option-cases, Bool-cases,
}
use basic_setup.Device.Op
use basic_setup.WebSocket.Reader.{next_byte}
use basic_setup.WebSocket.Control.{is_control_frame}
use basic_setup.WebSocket.ReadFrame.{Status-cases, as_u64, read_frame, done, failed, fault, Status}
use basic_setup.WebSocket.ReadFrame.Failure.{read_frame-Flagged}
use basic_setup.WebSocket.NextFrame.{
  Wfd, Peer, Turn, ends, leaves, closes, hangs_up, overruns, data_reading, ctrl_reading, store_ctrl,
  store_data, settle, keep_pong, do_pong, data_frame, pong_frame, ping_frame, close_frame, sized,
  accepted, opened, turn, unexpected, valid_opcode,
}

abbrev pub IsData : Option ℕ → Type 0
IsData type = (type ≡ some Op.txt) ⊎ (type ≡ some Op.bin)

-- The type so far is not known, or one of a data frame.
abbrev pub Begun : Option ℕ → Type 0
Begun type = (type ≡ none) ⊎ IsData type

-- How a turn ends: with the error flag set, or in a state that `Ok` allows.
abbrev pub Verdict : (Bool → Wfd → Type 0) → Turn × Wfd → Type 0
Verdict Ok (ends is_fin, st) = (st.reader.error ≡ true) ⊎ Ok is_fin st
Verdict Ok (leaves, st) = st.reader.error ≡ true
Verdict Ok (closes, st) = Unit
Verdict Ok (hangs_up, st) = Unit
Verdict Ok (overruns, st) = Unit

-- A message is complete only with the type of a data frame, and goes on only with such a type or none.
abbrev pub Typed : Bool → Wfd → Type 0
Typed true st = IsData st.frame_type
Typed false st = Begun st.frame_type

Begun-Typed : (is_fin : Bool) (st : Wfd) → IsData st.frame_type → Typed is_fin st
Begun-Typed true st d = d
Begun-Typed false st d = inr d

pub settle-Verdict :
    (Ok : Bool → Wfd → Type 0) (status : Status) (is_fin : Bool) (st : Wfd)
    → (status ≡ failed → st.reader.error ≡ true)
    → (status ≡ done → Ok is_fin st)
    → Verdict Ok (settle status (ends is_fin), st)
settle-Verdict Ok done is_fin st f ok = inr (ok refl)
settle-Verdict Ok failed is_fin st f ok = f refl
settle-Verdict Ok fault is_fin st f ok = tt

goes_on-IsData :
    (opcode : ℕ) (type : Option ℕ)
    → Begun type
    → unexpected opcode type ≡ false
    → (opcode == Op.cont || is_control_frame opcode) ≡ true
    → is_control_frame opcode ≡ false
    → IsData type
unfolding unexpected
goes_on-IsData opcode type (inr d) u c n = d
goes_on-IsData opcode type (inl e) u c n =
    let v : unexpected opcode none ≡ false = ap (unexpected opcode) (sym e) ∙ u in ground arith

starts-IsData :
    (opcode : ℕ)
    → valid_opcode opcode ≡ true
    → (opcode == Op.cont || is_control_frame opcode) ≡ false
    → IsData (some opcode)
unfolding valid_opcode is_control_frame
starts-IsData opcode v c = elim (Bool-cases (opcode == Op.txt)) [
  | inl t ↦ inl (ground arith)
  | inr n ↦ inr (ground arith)
]

module _ (p : Peer) where
  data_frame-Verdict :
      (is_fin : Bool) (n : ℕ) (st : Wfd)
      → IsData st.frame_type
      → Verdict Typed (data_frame p is_fin n st)
  unfolding data_frame
  data_frame-Verdict is_fin n st d =
      let (status, r) = read_frame p.realloc_ok false is_fin (data_reading n st) in
      settle-Verdict Typed status is_fin (store_data r st)
        (read_frame-Flagged p.realloc_ok false is_fin (data_reading n st)).flagged
        (λ _. Begun-Typed is_fin (store_data r st) d)

  keep_pong-type : (size : ℕ) (st : Wfd) → (keep_pong p size st).frame_type ≡ st.frame_type
  unfolding keep_pong
  keep_pong-type size st = if_both (λ (s : Wfd). s.frame_type ≡ st.frame_type) _ _ _ refl refl

  do_pong-Verdict : (size : ℕ) (st : Wfd) → Begun st.frame_type → Verdict Typed (do_pong p size st)
  unfolding do_pong
  do_pong-Verdict size st b = if_both (Verdict Typed) (p.pong_sent st.met) _ _ (inr b) refl

  pong_frame-Verdict :
      (is_fin : Bool) (n : ℕ) (st : Wfd)
      → Begun st.frame_type
      → Verdict Typed (pong_frame p is_fin n st)
  unfolding pong_frame
  pong_frame-Verdict is_fin n st b =
      let (status, r) = read_frame p.realloc_ok true is_fin (ctrl_reading n st) in
      elim (Status-cases status) [
        | inl e ↦
            let same = keep_pong-type r.frame_size (store_ctrl r st) in
            rw (e, pong_frame) (inr (subst Begun (sym same) b))
        | inr (inl e) ↦
            rw (e, pong_frame)
              ((read_frame-Flagged p.realloc_ok true is_fin (ctrl_reading n st)).flagged e)
        | inr (inr e) ↦ rw (e, pong_frame) tt
      ]

  ping_frame-Verdict :
      (is_fin : Bool) (n : ℕ) (st : Wfd)
      → Begun st.frame_type
      → Verdict Typed (ping_frame p is_fin n st)
  unfolding ping_frame
  ping_frame-Verdict is_fin n st b =
      let (status, r) = read_frame p.realloc_ok true is_fin (ctrl_reading n st) in
      elim (Status-cases status) [
        | inl e ↦ rw (e, ping_frame) (do_pong-Verdict r.frame_size (store_ctrl r st) b)
        | inr (inl e) ↦
            rw (e, ping_frame)
              ((read_frame-Flagged p.realloc_ok true is_fin (ctrl_reading n st)).flagged e)
        | inr (inr e) ↦ rw (e, ping_frame) tt
      ]

  pub close_frame-Verdict :
      (Ok : Bool → Wfd → Type 0) (is_fin : Bool) (n : ℕ) (st : Wfd)
      → Verdict Ok (close_frame p is_fin n st)
  unfolding close_frame
  close_frame-Verdict Ok is_fin n st =
      let (status, r) = read_frame p.realloc_ok true is_fin (ctrl_reading n st) in
      elim (Status-cases status) [
        | inl e ↦ rw (e, close_frame) tt
        | inr (inl e) ↦
            rw (e, close_frame)
              ((read_frame-Flagged p.realloc_ok true is_fin (ctrl_reading n st)).flagged e)
        | inr (inr e) ↦ rw (e, close_frame) tt
      ]

  sized-Verdict :
      (opcode : ℕ) (is_fin : Bool) (st : Wfd)
      → Begun st.frame_type
      → (is_control_frame opcode ≡ false → IsData st.frame_type)
      → Verdict Typed (sized p opcode is_fin st)
  unfolding sized is_control_frame
  sized-Verdict opcode is_fin st b d =
      let n = as_u64 (next_byte st.reader).0 % 256 % 128 in
      let st' = record st { reader = (next_byte st.reader).1 } in
      let V = Verdict Typed in
      if_both V (is_control_frame opcode && (not is_fin || ltb 125 n)) _ _ refl (
        if_cases V (opcode == Op.txt || opcode == Op.bin || opcode == Op.cont) _ _
          (λ e. data_frame-Verdict is_fin n st' (d (ground arith)))
          (λ e. if_both V (opcode == Op.pong) _ _ (pong_frame-Verdict is_fin n st' b) (
            if_both V (opcode == Op.ping) _ _ (ping_frame-Verdict is_fin n st' b)
              (close_frame-Verdict Typed is_fin n st'))))

  opened-Verdict : (b : ℕ) (st : Wfd) → Begun st.frame_type → Verdict Typed (opened p b st)
  unfolding opened accepted
  opened-Verdict b st begun =
      let opcode = b % 16 in
      let V = Verdict Typed in
      if_cases V (not (b / 16 % 8 == 0) || unexpected opcode st.frame_type) _ _ (λ e. refl)
        (λ e.
          if_cases V (valid_opcode opcode) _ _
            (λ v. if_both V (p.closing st.met && not (opcode == Op.clse)) _ _ refl (
              if_cases (λ (s : Wfd). V (sized p opcode (b % 256 / 128 == 1) s))
                (opcode == Op.cont || is_control_frame opcode) _ _
                (λ c.
                  sized-Verdict opcode _ st begun
                    (λ d. goes_on-IsData opcode st.frame_type begun (ground arith) c d))
                (λ c.
                  let d = starts-IsData opcode v c in
                  sized-Verdict opcode _ (record st { frame_type = some opcode }) (inr d)
                    (λ _. d))))
            (λ v. inl refl))

  pub turn-Verdict : (st : Wfd) → Begun st.frame_type → Verdict Typed (turn p st)
  unfolding turn
  turn-Verdict st begun = elim (Option-cases (next_byte st.reader).0) [
    | inl e ↦ rw (e, turn) tt
    | inr (b, e) ↦
        rw (e, turn)
          (opened-Verdict b (record st { reader = (next_byte st.reader).1; met = st.met + 1 })
            begun)
  ]
