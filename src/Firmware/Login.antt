-- ===== src/Firmware/Login.antt =====
-- Who is logged in: `on_ws_login` and `on_ws_logout` of main/config.c.
use basic_setup.Prelude.{
  ℕ, ◌≡◌, Bool, ◌&&◌, ◌||◌, some, List, [], ◌∷◌, ◌++◌, length, ltb, leb, ◌==◌, if◌then◌else◌, arith,
}
use basic_setup.Device.{Env, is_ok, ws_sendframe}
use basic_setup.Device.Op
use basic_setup.Device.MsgId
use basic_setup.Storage.{password_check}
use basic_setup.Firmware.{Device, flag, login, app_password_max_size}

module _ {N : Type 0} (env : Env N) where
  -- The login flag that the handler leaves for the client.
  abbrev pub login_result : ℕ → List ℕ → Device N → Bool
  login_result client msg d =
      d.is_login client
      || ((ltb 0 (length msg) && leb (length msg) app_password_max_size)
          && is_ok (password_check env msg d.flash).0)

  -- A client is logged in afterwards exactly if it was before, or if its password has 1 to 128 bytes
  -- and passes `password_check`. The flags of the others, the configuration and the handlers stay,
  -- and the one frame that is sent tells the client its flag.
  pub login_lem :
      (client : ℕ) (msg : List ℕ) (d : Device N)
      → ((c : ℕ)
          → (login env client msg d).is_login c
            ≡ (if c == client then login_result client msg d else d.is_login c))
        × ((login env client msg d).config ≡ d.config)
        × ((login env client msg d).handlers ≡ d.handlers)
        × ((login env client msg d).out
            ≡ d.out
              ++ (ws_sendframe
                    (some client)
                    (MsgId.login ∷ flag (login_result client msg d) ∷ [])
                    Op.bin
                  ∷ []))
  unfolding login
  login_lem client msg d = (λ c. ground arith, ground arith, ground arith, ground arith)
