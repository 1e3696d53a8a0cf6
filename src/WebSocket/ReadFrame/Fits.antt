-- ===== src/WebSocket/ReadFrame/Fits.antt =====
-- The size that `read_frame` reports, and the buffer behind it.
use basic_setup.Prelude.{
  ℕ, zero, suc, ◌+◌, ◌%◌, ◌^◌, ◌≤◌, ◌<◌, ◌≡◌, refl, ap, ◌∙◌, ◌⊎◌, inl, inr, Bool, true, false, ◌&&◌,
  List, length, length-set, get_or, ltb, ◌==◌, bit_xor, if_both, if_cases, Option-cases, arith,
}
use basic_setup.WebSocket.Reader.{next_byte}
use basic_setup.WebSocket.ReadFrame.{
  Status, done, failed, fault, Reading, max_frame_length, flag, realloc, read_length, read_masks,
  write_byte, and_then, copy_payload, read_payload, terminate, read_body, read_frame,
}
use basic_setup.WebSocket.ReadFrame.Payload.{length-realloc}

-- The size is the index behind the payload, inside of the buffer, and at most the maximum.
pub record IsFit (st : Reading) : Type 0 where
  pub exact : st.frame_size ≡ st.msg_idx
  pub inside : st.msg_idx ≤ length st.buf
  pub bounded : st.frame_size ≤ max_frame_length

-- What holds if a part of `read_frame` succeeds.
record OnDone (P : Reading → Type 0) (r : Status × Reading) : Type 0 where
  then_holds : r.0 ≡ done → P r.1

never :
    (P : Reading → Type 0) (status : Status) (st : Reading)
    → (status ≡ failed) ⊎ (status ≡ fault)
    → OnDone P (status, st)
never P status st (inl e) = record { then_holds = λ d. cc }
never P status st (inr e) = record { then_holds = λ d. cc }

and_then-OnDone :
    {P Q : Reading → Type 0} (r : Status × Reading) (next : Reading → Status × Reading)
    → OnDone P r
    → ((st : Reading) → P st → OnDone Q (next st))
    → OnDone Q (and_then r next)
and_then-OnDone (done, st) next h g = g st (h.then_holds refl)
and_then-OnDone (failed, st) next h g = record { then_holds = λ d. cc }
and_then-OnDone (fault, st) next h g = record { then_holds = λ d. cc }

-- A byte was written at an index of the buffer.
record Wrote (st st' : Reading) : Type 0 where
  within : st.msg_idx < length st.buf
  length_eq : length st'.buf ≡ length st.buf
  idx : st'.msg_idx ≡ st.msg_idx
  size : st'.frame_size ≡ st.frame_size

write_byte-Wrote : (value : ℕ) (st : Reading) → OnDone (Wrote st) (write_byte value st)
unfolding write_byte
write_byte-Wrote value st =
    if_cases (OnDone (Wrote st)) (ltb st.msg_idx (length st.buf)) _ _
      (λ e. record {
        then_holds = λ d. record {
          within = ground arith;
          length_eq = length-set st.buf st.msg_idx value;
          idx = refl;
          size = refl;
        };
      })
      (λ e. never (Wrote st) fault st (inr refl))

-- `n` bytes were copied, all of them into the buffer.
record Copied (n : ℕ) (st st' : Reading) : Type 0 where
  within : (n ≡ 0) ⊎ (st.msg_idx + n ≤ length st.buf)
  length_eq : length st'.buf ≡ length st.buf
  idx : st'.msg_idx ≡ st.msg_idx + n
  size : st'.frame_size ≡ st.frame_size

one_more :
    (n : ℕ) (st mid st' : Reading)
    → Wrote st mid
    → Copied n (record mid { msg_idx = mid.msg_idx + 1 }) st'
    → Copied (suc n) st st'
one_more n st mid st' w c = record {
  within = inr (elim c.within [
    | inl z ↦ omega (arith, z, w.within)
    | inr h ↦ omega (arith, h, w.idx, w.length_eq)
  ]);
  length_eq = c.length_eq ∙ w.length_eq;
  idx = omega (arith, c.idx, w.idx);
  size = c.size ∙ w.size;
}

copy_payload-OnDone :
    (masks : List ℕ) (i n : ℕ) (st : Reading) → OnDone (Copied n st) (copy_payload masks i n st)
unfolding copy_payload
copy_payload-OnDone masks i zero st = record {
  then_holds = λ d. record { within = inl refl; length_eq = refl; idx = omega arith; size = refl };
}
copy_payload-OnDone masks i (suc n) st = elim (Option-cases (next_byte st.reader).0) [
  | inl e ↦ rw (e, copy_payload) (never (Copied (suc n) st) failed _ (inl refl))
  | inr (b, e) ↦
      let st1 = record st { reader = (next_byte st.reader).1 } in
      let x = bit_xor b (get_or masks (i % 4) 0) in
      let next = λ (st' : Reading).
        copy_payload masks (suc i) n (record st' { msg_idx = st'.msg_idx + 1 }) in
      rw (e, copy_payload)
        (and_then-OnDone (write_byte x st1) next (write_byte-Wrote x st1) (λ mid w. record {
          then_holds = λ d.
              one_more n st mid _
                (record { within = w.within; length_eq = w.length_eq; idx = w.idx; size = w.size })
                ((copy_payload-OnDone masks (suc i) n
                    (record mid { msg_idx = mid.msg_idx + 1 })).then_holds
                  d);
        }))
]

-- Before the payload: the size is that behind it, in 64 bits.
record IsSized (st : Reading) : Type 0 where
  sum : st.frame_size ≡ (st.msg_idx + st.frame_length) % 2 ^ 64
  inside : st.msg_idx ≤ length st.buf
  bounded : st.frame_size ≤ max_frame_length
  before : st.msg_idx ≤ max_frame_length

-- The bytes of the payload stand in a buffer of less than 2 ^ 32, so the sum has not wrapped.
Copied-IsFit :
    (n k : ℕ) (st grown st' : Reading)
    → IsSized st
    → st.frame_length ≡ n
    → (n == 0) ≡ false
    → grown.msg_idx ≡ st.msg_idx
    → grown.frame_size ≡ st.frame_size
    → length grown.buf ≡ k % 2 ^ 32
    → Copied n grown st'
    → IsFit st'
Copied-IsFit n k st grown st' h len some_bytes idx size room c =
    let fits : st.msg_idx + n ≤ k % 2 ^ 32 = elim c.within [
      | inl z ↦ ground arith
      | inr w ↦ omega (arith, w, idx, room)
    ] in
    let whole : st.frame_size ≡ st.msg_idx + n = omega (arith, h.sum, len, fits) in
    record {
      exact = omega (arith, whole, c.size, size, c.idx, idx);
      inside = omega (arith, fits, c.length_eq, room, c.idx, idx);
      bounded = omega (arith, h.bounded, c.size, size);
    }

write_byte-IsFit : (value : ℕ) (st : Reading) → IsFit st → OnDone IsFit (write_byte value st)
write_byte-IsFit value st fit =
    let w = write_byte-Wrote value st in
    record {
      then_holds = λ d. record {
        exact = omega (arith, fit.exact, (w.then_holds d).idx, (w.then_holds d).size);
        inside = omega (arith, fit.inside, (w.then_holds d).idx, (w.then_holds d).length_eq);
        bounded = omega (arith, fit.bounded, (w.then_holds d).size);
      };
    }

module _ (realloc_ok : ℕ → Bool) (is_fin : Bool) where
  read_payload-IsFit :
      (masks : List ℕ) (st : Reading)
      → IsSized st
      → OnDone IsFit (read_payload realloc_ok false is_fin masks st)
  unfolding read_payload
  read_payload-IsFit masks st h =
      let size = st.msg_idx + st.frame_length + flag is_fin in
      let grown = record st { buf = realloc size st.buf } in
      let copy = copy_payload-OnDone masks 0 st.frame_length grown in
      if_cases (OnDone IsFit) (st.frame_length == 0) _ _
        (λ z. record {
          then_holds = λ d. record {
            exact = ground (arith, h.sum, h.before);
            inside = h.inside;
            bounded = h.bounded;
          };
        })
        (λ nz.
          if_both (OnDone IsFit) (realloc_ok (size % 2 ^ 32)) _ _
            (record {
              then_holds = λ d.
                  Copied-IsFit st.frame_length size st grown _ h refl nz refl refl
                    (length-realloc size st.buf) (copy.then_holds d);
            })
            (never IsFit failed _ (inl refl)))

  terminate-IsFit : (st : Reading) → IsFit st → OnDone IsFit (terminate realloc_ok false is_fin st)
  unfolding terminate
  terminate-IsFit st fit =
      let grown = record st { buf = realloc (st.msg_idx + 1) st.buf } in
      let room : st.msg_idx ≤ length grown.buf =
        omega (arith, length-realloc (st.msg_idx + 1) st.buf, fit.exact, fit.bounded) in
      if_both (OnDone IsFit) (is_fin && ltb 0 st.frame_size) _ _
        (if_both (OnDone IsFit) (st.frame_length == 0 && true) _ _
          (if_both (OnDone IsFit) (realloc_ok ((st.msg_idx + 1) % 2 ^ 32)) _ _
            (write_byte-IsFit 0 grown
              (record { exact = fit.exact; inside = room; bounded = fit.bounded }))
            (never IsFit failed _ (inl refl)))
          (write_byte-IsFit 0 st fit))
        (record { then_holds = λ d. fit })

  read_body-IsFit : (st : Reading) → IsFit st → OnDone IsFit (read_body realloc_ok false is_fin st)
  unfolding read_body
  read_body-IsFit st fit =
      let size = (st.frame_size + st.frame_length) % 2 ^ 64 in
      let (masks, w) = read_masks 4 st.reader in
      let read = record st { frame_size = size; reader = w } in
      if_cases (OnDone IsFit) (ltb max_frame_length size) _ _
        (λ big. never IsFit failed _ (inl refl))
        (λ small. if_both (OnDone IsFit) w.error _ _ (never IsFit failed _ (inl refl)) (
          and_then-OnDone (read_payload realloc_ok false is_fin masks read)
            (terminate realloc_ok false is_fin)
            (read_payload-IsFit masks read record {
              sum = ap (λ k. (k + st.frame_length) % 2 ^ 64) fit.exact;
              inside = fit.inside;
              bounded = ground arith;
              before = omega (arith, fit.exact, fit.bounded);
            })
            terminate-IsFit))

  -- A data frame keeps the size of its message exact, whatever length it announces.
  pub read_frame-IsFit :
      (st : Reading)
      → IsFit st
      → (read_frame realloc_ok false is_fin st).0 ≡ done
      → IsFit (read_frame realloc_ok false is_fin st).1
  unfolding read_frame
  read_frame-IsFit st fit =
      let (n, w) = read_length st.frame_length st.reader in
      (read_body-IsFit (record st { frame_length = n; reader = w })
        (record { exact = fit.exact; inside = fit.inside; bounded = fit.bounded })).then_holds
