-- ===== src/WebSocket/ReadFrame/Appended.antt =====
-- A payload that has arrived completely stands in the buffer behind the message so far.
use basic_setup.Prelude.{
  ℕ, ◌+◌, ◌%◌, ◌^◌, ◌≤◌, ◌<◌, ◌≡◌, refl, sym, ap, ◌∙◌, subst, Bool, true, false, not, ◌&&◌, List,
  [], ◌∷◌, ◌++◌, append-nil, length, take, take-take, take-append_le, replicate, ◌==◌, arith,
  if_cases,
}
use basic_setup.WebSocket.Reader.{Reader, Ahead}
use basic_setup.WebSocket.ReadFrame.{
  Status, done, Reading, realloc, flag, copy_payload, read_payload,
}
use basic_setup.WebSocket.ReadFrame.Payload.{
  unmask, length-realloc, copy_payload-Inside, copy_payload-Copied,
}
use basic_setup.WebSocket.ReadFrame.Overflow.{flag_bound, flag_final}
use basic_setup.WebSocket.ReadFrame.Control.{Inside-done}

-- The beginning of a buffer survives a reallocation.
pub take-realloc :
    (n size : ℕ) (buf : List ℕ)
    → n ≤ length buf
    → n ≤ size
    → size < 2 ^ 32
    → take n (realloc size buf) ≡ take n buf
take-realloc n size buf h1 h2 h3 =
    let whole : size % 2 ^ 32 ≡ size = omega arith in
    rw whole
      (take-take n size (buf ++ replicate size 0) h2 ∙ take-append_le n buf (replicate size 0) h1)

no_text :
    (ms bs : List ℕ) (n : ℕ) (buf : List ℕ)
    → length bs ≡ 0
    → take (n + length bs) buf ≡ take n buf ++ unmask ms 0 bs
unfolding unmask
no_text ms [] n buf h = let e : n + 0 ≡ n = omega arith in rw e (sym (append-nil (take n buf)))
no_text ms (b ∷ bs) n buf h = absurd (omega arith)

no_bytes : (bs rest : List ℕ) (w : Reader) → length bs ≡ 0 → Ahead (bs ++ rest) w → Ahead rest w
no_bytes [] rest w h a = a
no_bytes (b ∷ bs) rest w h a = absurd (omega arith)

module _ (realloc_ok : ℕ → Bool) (memory : (n : ℕ) → realloc_ok n ≡ true) (control is_fin : Bool)
    (ms bs rest : List ℕ) where
  -- After the payload: the buffer has it, and room for the terminator where one is written to it.
  pub record Appended (st : Reading) (r : Status × Reading) : Type 0 where
    pub ok : r.0 ≡ done
    pub size : r.1.frame_size ≡ st.frame_size
    pub same : r.1.frame_length ≡ st.frame_length
    pub idx : r.1.msg_idx ≡ st.msg_idx + length bs
    pub text : take (st.msg_idx + length bs) r.1.buf ≡ take st.msg_idx st.buf ++ unmask ms 0 bs
    pub inside : st.msg_idx + length bs ≤ length r.1.buf
    pub room :
        is_fin ≡ true
        → (st.frame_length == 0 && not control) ≡ false
        → st.msg_idx + length bs < length r.1.buf
    pub kept : control ≡ true → length r.1.buf ≡ length st.buf
    pub left : Ahead rest r.1.reader

  copy-Appended :
      (st : Reading) (buf : List ℕ)
      → Ahead (bs ++ rest) st.reader
      → st.frame_length ≡ length bs
      → st.msg_idx + length bs ≤ length buf
      → take st.msg_idx buf ≡ take st.msg_idx st.buf
      → (is_fin ≡ true → st.msg_idx + length bs < length buf)
      → (control ≡ true → length buf ≡ length st.buf)
      → Appended st (copy_payload ms 0 st.frame_length (record st { buf = buf }))
  copy-Appended st buf a len h text room kept =
      let st1 = record st { buf = buf } in
      let copied = copy_payload-Copied ms 0 bs rest st1 a h in
      let facts =
        Inside-done (length bs) st1 _ copied.0 (copy_payload-Inside ms 0 (length bs) st1 h) in
      subst (λ n. Appended st (copy_payload ms 0 n st1)) (sym len)
        (record {
          ok = copied.0;
          size = facts.2;
          same = facts.3;
          idx = facts.0;
          text = copied.1 ∙ ap (λ xs. xs ++ unmask ms 0 bs) text;
          inside = omega (arith, facts.1);
          room = λ f g. omega (arith, facts.1, room f);
          kept = λ c. facts.1 ∙ kept c;
          left = copied.2;
        })

  pub read_payload-Appended :
      (st : Reading)
      → Ahead (bs ++ rest) st.reader
      → st.frame_length ≡ length bs
      → st.msg_idx ≤ length st.buf
      → st.msg_idx + length bs + 1 < 2 ^ 32
      → (control ≡ true → st.msg_idx + length bs < length st.buf)
      → Appended st (read_payload realloc_ok control is_fin ms st)
  unfolding read_payload
  read_payload-Appended st a len h small ctrl =
      let size = st.msg_idx + st.frame_length + flag is_fin in
      let fits : st.msg_idx + length bs + flag is_fin ≡ size = omega (arith, len) in
      let grown = length-realloc size st.buf in
      let bound : flag is_fin ≤ 1 = flag_bound is_fin in
      let Q = Appended st in
      if_cases Q (st.frame_length == 0) _ _
        (λ empty. record {
          ok = refl;
          size = refl;
          same = refl;
          idx = ground (arith, len);
          text = no_text ms bs st.msg_idx st.buf (ground (arith, len));
          inside = ground (arith, len);
          room = λ f g. ground (arith, len, ctrl);
          kept = λ c. refl;
          left = no_bytes bs rest st.reader (ground (arith, len)) a;
        })
        (λ some_bytes.
          if_cases Q control _ _
            (λ c.
              copy-Appended st st.buf a len (omega (arith, ctrl c)) refl (λ f. ctrl c) (λ _. refl))
            (λ d.
              if_cases Q (realloc_ok (size % 2 ^ 32)) _ _
                (λ e.
                  copy-Appended st (realloc size st.buf) a len (omega (arith, fits, grown, bound))
                    (take-realloc st.msg_idx size st.buf h (omega (arith, fits))
                      (omega (arith, fits, bound)))
                    (λ f. omega (arith, fits, grown, bound, flag_final is_fin f))
                    (λ c. let no : true ≡ false = sym c ∙ d in cc))
                (λ e. let no : true ≡ false = sym (memory (size % 2 ^ 32)) ∙ e in cc)))
