-- ===== src/WebSocket/Reader.antt =====
-- `next_byte`: bytes out of a receive buffer that `recv` fills.
use basic_setup.Prelude.{
  ℕ, zero, suc, ◌+◌, ◌-◌, ◌≤◌, ◌<◌, ◌≡◌, refl, ap, sym, ◌∙◌, Bool, true, false, ◌||◌, Option, none,
  some, List, [], ◌∷◌, ◌++◌, length, get_or, drop, ◌==◌, if◌then◌else◌, arith, Bool-cases, inl, inr,
  if_cases, length-drop,
}

-- The reading part of `struct ws_frame_data`. `input` is what the next calls of `recv` bring: the
-- empty list is a result of 0 or less. The end of `input` counts as one too; a client that stays
-- idle, for which `recv` waits, is therefore the input of which only a beginning is read, and the
-- theorems on the end of a function ask for an input that `Ends`.
pub record Reader : Type 0 where
  pub input : List (List ℕ)
  pub frm : List ℕ
  pub cur_pos : ℕ
  pub amt_read : ℕ
  pub error : Bool

-- One of the calls of `recv` gives 0 or fails.
unfoldable pub Ends : List (List ℕ) → Type 0
Ends [] = ⊥
Ends ([] ∷ rest) = Unit
Ends ((b ∷ bs) ∷ rest) = Ends rest

-- `recv` into `frm`, and the first byte of it.
unfoldable pub refill : List (List ℕ) → Reader → Option ℕ × Reader
refill [] w = (none, record w { error = true })
refill ([] ∷ rest) w = (none, record w { input = rest; error = true })
refill ((b ∷ bs) ∷ rest) w =
    (some b, record w { input = rest; frm = b ∷ bs; cur_pos = 1; amt_read = suc (length bs) })

unfoldable pub next_byte : Reader → Option ℕ × Reader
unfolding refill
next_byte w =
    if w.cur_pos == 0 || w.cur_pos == w.amt_read
    then refill w.input w
    else (some (get_or w.frm w.cur_pos 0), record w { cur_pos = w.cur_pos + 1 })

-- The bytes that are still to come before `recv` fails.
unfoldable pub arriving : List (List ℕ) → List ℕ
arriving [] = []
arriving ([] ∷ rest) = []
arriving ((b ∷ bs) ∷ rest) = (b ∷ bs) ++ arriving rest

-- All bytes that can still come, whatever `recv` reports in between.
unfoldable pub pending : List (List ℕ) → ℕ
pending [] = 0
pending (bs ∷ rest) = length bs + pending rest

unfoldable pub unread : Reader → ℕ
unfolding pending
unread w = w.amt_read - w.cur_pos + pending w.input

-- A reader that has met no error, with these bytes ahead of it.
pub record Ahead (bytes : List ℕ) (w : Reader) : Type 0 where
  pub no_error : w.error ≡ false
  pub within : w.cur_pos ≤ w.amt_read
  pub filled : w.amt_read ≡ length w.frm
  pub fresh : w.cur_pos ≡ 0 → w.amt_read ≡ 0
  pub stream : drop w.cur_pos w.frm ++ arriving w.input ≡ bytes

drop_end {ℓ} : {A : Type ℓ} (n : ℕ) (xs : List A) → length xs ≤ n → drop n xs ≡ []
drop_end zero [] h = refl
drop_end zero (x ∷ xs) h = absurd (omega arith)
drop_end (suc n) [] h = refl
drop_end (suc n) (x ∷ xs) h = drop_end n xs (omega arith)

drop_next : (n : ℕ) (xs : List ℕ) → n < length xs → drop n xs ≡ get_or xs n 0 ∷ drop (suc n) xs
drop_next zero [] h = absurd (omega arith)
drop_next zero (x ∷ xs) h = refl
drop_next (suc n) [] h = absurd (omega arith)
drop_next (suc n) (x ∷ xs) h = drop_next n xs (omega arith)

-- The byte and the reader after it.
abbrev pub Takes : ℕ → List ℕ → Option ℕ × Reader → Type 0
Takes b bs r = (r.0 ≡ some b) × Ahead bs r.1

refill-Takes :
    (input : List (List ℕ)) (w : Reader) (b : ℕ) (bs : List ℕ)
    → w.error ≡ false
    → arriving input ≡ b ∷ bs
    → Takes b bs (refill input w)
unfolding refill arriving
refill-Takes [] w b bs e h = cc
refill-Takes ([] ∷ rest) w b bs e h = cc
refill-Takes ((x ∷ xs) ∷ rest) w b bs e h = (
  cc,
  record {
    no_error = e;
    within = omega arith;
    filled = refl;
    fresh = λ z. absurd (omega arith);
    stream = cc;
  },
)

-- However `recv` cuts the bytes up, `next_byte` gives the next one of the stream, as long as one
-- is left and no error was met, and leaves the rest of the stream ahead.
pub next_byte-Takes :
    (w : Reader) (b : ℕ) (bs : List ℕ) → Ahead (b ∷ bs) w → Takes b bs (next_byte w)
unfolding next_byte
next_byte-Takes w b bs a = elim (Bool-cases (w.cur_pos == 0 || w.cur_pos == w.amt_read)) [
  | inl empty ↦
      let all : length w.frm ≤ w.cur_pos = ground (arith, a.within, a.filled, a.fresh) in
      let ends : arriving w.input ≡ b ∷ bs = rw (drop_end w.cur_pos w.frm all) at a.stream in
      rw empty (refill-Takes w.input w b bs a.no_error ends)
  | inr more ↦
      let left : w.cur_pos < length w.frm = ground (arith, a.within, a.filled) in
      let split : get_or w.frm w.cur_pos 0 ∷ (drop (suc w.cur_pos) w.frm ++ arriving w.input)
          ≡ b ∷ bs =
        ap (λ xs. xs ++ arriving w.input) (sym (drop_next w.cur_pos w.frm left)) ∙ a.stream in
      let step : w.cur_pos + 1 ≡ suc w.cur_pos = omega arith in
      rw more (
        ap some (ap (λ xs. get_or xs 0 0) split),
        record {
          no_error = a.no_error;
          within = ground (arith, a.filled);
          filled = a.filled;
          fresh = λ z. absurd (omega arith);
          stream = rw step (ap (drop 1) split);
        },
      )
]

refill_end : (input : List (List ℕ)) (w : Reader) → arriving input ≡ [] → (refill input w).0 ≡ none
unfolding refill arriving
refill_end [] w h = refl
refill_end ([] ∷ rest) w h = refl
refill_end ((b ∷ bs) ∷ rest) w h = cc

append_empty {ℓ} : {A : Type ℓ} (xs ys : List A) → xs ++ ys ≡ [] → (length xs ≡ 0) × (ys ≡ [])
append_empty [] ys h = (refl, h)
append_empty (x ∷ xs) ys h = cc

-- At the end of the stream there is no byte.
pub next_byte_end : (w : Reader) → Ahead [] w → (next_byte w).0 ≡ none
unfolding next_byte
next_byte_end w a =
    let (all, ends) = append_empty (drop w.cur_pos w.frm) (arriving w.input) a.stream in
    if_cases (λ (r : Option ℕ × Reader). r.0 ≡ none) (w.cur_pos == 0 || w.cur_pos == w.amt_read) _ _
      (λ e. refill_end w.input w ends)
      (λ e. absurd (ground (arith, all, length-drop w.cur_pos w.frm, a.within, a.filled)))
