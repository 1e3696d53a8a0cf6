-- ===== src/Console/Terminal.antt =====
-- The task of main/terminal.c. Reading a line and running a command belong to the SDK and are given;
-- `run` is `esp_console_run` with the commands that are registered.
use basic_setup.Prelude.{ℕ, Option, none, some, List, [], ◌∷◌, ◌++◌, ◌==◌, if◌then◌else◌}

-- ESP_OK, ESP_ERR_NOT_FOUND, ESP_ERR_INVALID_ARG, and any other error.
pub data ConsoleErr : Type 0 where
  ran not_found invalid_arg internal : ConsoleErr

-- What the task prints about a line.
pub data Report : Type 0 where
  unrecognized internal_error : Report
  return_error : ℕ → Report

-- The tests behind `esp_console_run`, whose command returned `ret`.
unfoldable pub report : ConsoleErr → ℕ → Option Report
report not_found ret = some unrecognized
report invalid_arg ret = none
report ran ret = if ret == 0 then none else some (return_error ret)
report internal ret = some internal_error

pub record Terminal (S : Type 0) : Type 0 where
  pub state : S
  pub history : List (List ℕ)
  pub reports : List Report

abbrev pub printed : Option Report → List Report
printed none = []
printed (some r) = r ∷ []

module _ {S : Type 0} (run : List ℕ → S → ConsoleErr × ℕ × S) where
  -- One turn, for a line or for none.
  unfoldable pub terminal_turn : Option (List ℕ) → Terminal S → Terminal S
  unfolding report
  terminal_turn none t = t
  terminal_turn (some line) t =
      let (err, ret, s) = run line t.state in
      record {
        state = s;
        history = t.history ++ (line ∷ []);
        reports = t.reports ++ printed (report err ret);
      }

  unfoldable pub terminal_task : List (Option (List ℕ)) → Terminal S → Terminal S
  unfolding terminal_turn
  terminal_task [] t = t
  terminal_task (line ∷ lines) t = terminal_task lines (terminal_turn line t)
