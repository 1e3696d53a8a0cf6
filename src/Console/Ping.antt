-- ===== src/Console/Ping.antt =====
-- The command `ping` of components/commands/src/cmd-ping.c. The argument table behind `arg_parse`, the
-- name lookup, and the ping session of the SDK are given.
use basic_setup.Prelude.{
  ℕ, suc, ◌+◌, ◌-◌, ◌%◌, ◌^◌, ◌≤◌, ◌<◌, ◌≡◌, refl, Bool, true, false, Option, none, some, List,
  ◌==◌, if◌then◌else◌, arith, ◌↔◌, if_cases,
}
use basic_setup.Prelude.Int.{ℤ, pos, negsuc}
use basic_setup.Console.Terminal.{ran, report, Report}

-- The conversion of an int to a uint32_t.
abbrev pub to_u32 : ℤ → ℕ
to_u32 (pos n) = n % 2 ^ 32
to_u32 (negsuc n) = 2 ^ 32 - 1 - n % 2 ^ 32

-- `ping_args`: an argument with the count 0 is `none`; `D` are the doubles.
pub record PingArgs (D : Type 0) : Type 0 where
  pub nerrors : ℕ
  pub timeout : Option D
  pub interval : Option D
  pub data_size : Option ℤ
  pub count : Option ℤ
  pub tos : Option ℤ
  pub interface : Option ℤ
  pub host : List ℕ

-- `esp_ping_config_t`, as far as the command sets it.
pub record PingConfig (A : Type 0) : Type 0 where
  pub timeout_ms : ℕ
  pub interval_ms : ℕ
  pub data_size : ℕ
  pub count : ℕ
  pub tos : ℕ
  pub interface : ℕ
  pub target_addr : A

-- What becomes of a session: `esp_ping_new_session` fails, it never ends, or `on_ping_end` is called
-- with the numbers of requests and replies, before the terminal task has suspended itself or later.
pub data Session : Type 0 where
  refused endless : Session
  ends : Bool → ℕ → ℕ → Session

-- What becomes of the command: it returns a code, waits forever, or uses a session that is not there.
pub data PingResult : Type 0 where
  returned : ℕ → PingResult
  stuck fault : PingResult

abbrev pub or_default : {X : Type 0} → (X → ℕ) → Option X → ℕ → ℕ
or_default f none old = old
or_default f (some x) old = f x

-- `ping_result_code`, a uint32_t difference.
unfoldable pub on_ping_end : ℕ → ℕ → ℕ
on_ping_end transmitted received = (transmitted + 2 ^ 32 - received) % 2 ^ 32

-- `vTaskSuspend` behind `esp_ping_start`: to resume a task that is not suspended does nothing.
unfoldable pub await : Session → PingResult
unfolding on_ping_end
await refused = fault
await endless = stuck
await (ends early transmitted received) =
    if early then stuck else returned (on_ping_end transmitted received)

-- The terminal is quiet about the result 0 only.
quiet :
    (transmitted received : ℕ)
    → received ≤ transmitted
    → (report ran (transmitted - received) ≡ none) ↔ (received ≡ transmitted)
unfolding report
quiet transmitted received le =
    if_cases (λ (o : Option Report). (o ≡ none) ↔ (received ≡ transmitted))
      (transmitted - received == 0) _ _ (λ z. ((λ _. ground arith), λ _. refl))
      (λ n. ((λ e. cc), λ e. absurd (ground arith)))

-- `milliseconds` is the conversion of a double times 1000, `resolve` are `inet_pton` and
-- `getaddrinfo`, `defaults` is ESP_PING_DEFAULT_CONFIG.
module _ {D A : Type 0} (milliseconds : D → ℕ) (resolve : List ℕ → Option A)
    (defaults : PingConfig A) (session : PingConfig A → Session) where
  unfoldable pub configure : PingArgs D → A → PingConfig A
  configure args target = record {
    timeout_ms = or_default milliseconds args.timeout defaults.timeout_ms;
    interval_ms = or_default milliseconds args.interval defaults.interval_ms;
    data_size = or_default to_u32 args.data_size defaults.data_size;
    count = or_default to_u32 args.count defaults.count;
    tos = or_default to_u32 args.tos defaults.tos;
    interface = or_default to_u32 args.interface defaults.interface;
    target_addr = target;
  }

  unfoldable pub do_ping_cmd : PingArgs D → PingResult
  unfolding configure await
  do_ping_cmd args =
      if args.nerrors == 0
      then elim (resolve args.host) [
        | none ↦ returned 1
        | some target ↦ await (session (configure args target))
      ]
      else returned 1

  -- For a host that is found, and a session that can be made and ends with no more replies than
  -- requests: the command returns the number of requests without a reply, and the terminal reports an
  -- error exactly if there is one; but if the session ends before the terminal task has suspended
  -- itself, the command never returns. It returns 1 for a host that is not found and for arguments
  -- that are refused.
  pub do_ping_cmd-report :
      (args : PingArgs D) (target : A) (transmitted received k : ℕ) (unknown : List ℕ)
      → args.nerrors ≡ 0
      → resolve args.host ≡ some target
      → resolve unknown ≡ none
      → (early : Bool) → session (configure args target) ≡ ends early transmitted received
      → received ≤ transmitted
      → transmitted < 2 ^ 32
      → (do_ping_cmd args ≡ (if early then stuck else returned (transmitted - received)))
        × ((report ran (transmitted - received) ≡ none) ↔ (received ≡ transmitted))
        × (do_ping_cmd (record args { host = unknown }) ≡ returned 1)
        × (do_ping_cmd (record args { nerrors = suc k }) ≡ returned 1)
  unfolding do_ping_cmd on_ping_end await
  do_ping_cmd-report args target transmitted received k unknown z found lost early e le small =
      let fine : (args.nerrors == 0) ≡ true = ground arith in
      let bad : (suc k == 0) ≡ false = ground arith in
      let code : (transmitted + 2 ^ 32 - received) % 2 ^ 32 ≡ transmitted - received =
        omega arith in
      (
        simp (fine, found, e, code) refl,
        quiet transmitted received le,
        simp (fine, lost) refl,
        rw bad refl,
      )
