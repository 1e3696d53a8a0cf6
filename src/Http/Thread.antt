-- ===== src/Http/Thread.antt =====
-- The loop of `http_thread` in components/web/src/web-server.c, and who closes the socket of a
-- request.
use basic_setup.Prelude.{ℕ, ◌+◌, ◌≡◌, ◌≢◌, ◌⊎◌, Option, none, some, List, [], ◌∷◌}
use basic_setup.Http.{
  WebFile, HttpEffect, write, close, Accepted, too_many_client, Handled, http_handler,
}

-- A connection that `accept` gives: its descriptor, what `recv` gives for it, and what `ws_accept`
-- answers.
pub record Visitor : Type 0 where
  pub client_fd : ℕ
  pub request : Option (List ℕ)
  pub ws_accept : List ℕ → Accepted

-- What is done for each connection, up to the first failure of `accept`.
unfoldable pub http_thread :
    (ℕ → List ℕ) → List WebFile → WebFile → ℕ → List (Option Visitor) → List (Visitor × Handled)
unfolding http_handler
http_thread print_int files index name_max [] = []
http_thread print_int files index name_max (none ∷ later) = []
http_thread print_int files index name_max (some v ∷ later) =
    (v, http_handler print_int files index name_max v.ws_accept v.request)
    ∷ http_thread print_int files index name_max later

-- How often the socket is closed.
pub closes : List HttpEffect → ℕ
closes [] = 0
closes (write bytes ∷ es) = closes es
closes (close ∷ es) = closes es + 1

-- The socket is closed once, or the WebSocket layer has it.
pub record IsSettled (v : Visitor) (h : Handled) : Type 0 where
  pub once_or_kept :
      (closes h.effects ≡ 1)
      ⊎ ((closes h.effects ≡ 0)
          × ((r : List ℕ) × (v.request ≡ some r) × (v.ws_accept r ≢ too_many_client)))

pub AllSettled : List (Visitor × Handled) → Type 0
AllSettled [] = Unit
AllSettled ((v, h) ∷ rest) = IsSettled v h × AllSettled rest
