-- ===== src/Http/Listen.antt =====
-- The start and the stop of the HTTP server: `http_start`, `http_stop` and `web_server_main`.
use basic_setup.Prelude.{
  ℕ, ◌+◌, ◌-◌, ◌≡◌, refl, Bool, true, false, not, Option, none, some, List, [], ◌∷◌, ◌==◌,
  if◌then◌else◌, arith, inl, inr, subst, sym, Option-cases, Bool-cases, ◌&&◌,
}
use basic_setup.WebSocket.Clients.{Table, web_socket_main}

-- `started` and `fd`, and what the SDK keeps: the mutexes that are made and not deleted, the sockets
-- that are open and the tasks that run `http_thread`.
pub record Server : Type 0 where
  pub started : Bool
  pub fd : Option ℕ
  pub mutexes : ℕ
  pub sockets : List ℕ
  pub tasks : ℕ

-- What the calls of `http_start` give: a mutex, a descriptor, and whether `bind`, `listen` and
-- `xTaskCreate` succeed.
pub record Calls : Type 0 where
  pub mutex : Bool
  pub socket : Option ℕ
  pub bind_ok : Bool
  pub listen_ok : Bool
  pub task_ok : Bool

-- `close`.
unfoldable pub close_socket : ℕ → List ℕ → List ℕ
close_socket n [] = []
close_socket n (m ∷ ms) = let rest = close_socket n ms in if n == m then ms else m ∷ rest

-- From the socket on.
unfoldable pub listen_on : Calls → ℕ → Server → Server
unfolding close_socket
listen_on c n s =
    let opened = record s { fd = some n; sockets = n ∷ s.sockets } in
    let shut = record opened { sockets = close_socket n opened.sockets } in
    if not c.bind_ok
    then shut
    else (if not c.listen_ok
        then shut
        else (if c.task_ok then record opened { tasks = s.tasks + 1 } else shut))

unfoldable pub http_start : Calls → Server → Server
unfolding listen_on
http_start c s =
    let made = record s { mutexes = s.mutexes + 1 } in
    if s.started
    then s
    else (if not c.mutex
        then s
        else (elim c.socket [ none ↦ record made { fd = none } | some n ↦ listen_on c n made ]))

-- `http_stop`; the descriptor of `none` is -1, which `close` refuses.
unfoldable pub http_stop : Server → Server
unfolding close_socket
http_stop s = record s {
  tasks = s.tasks - 1;
  sockets = elim s.fd [ none ↦ s.sockets | some n ↦ close_socket n s.sockets ];
  mutexes = s.mutexes - 1;
  started = false;
}

unfoldable pub web_server_main : Calls → Server → Table × Server
unfolding http_start
web_server_main c s = (web_socket_main, http_start c s)

close_socket-same : (n : ℕ) (ms : List ℕ) → close_socket n (n ∷ ms) ≡ ms
unfolding close_socket
close_socket-same n ms = let same : (n == n) ≡ true = ground arith in rw same refl

-- Whether all calls succeed.
abbrev pub works : Calls → Bool
works c =
    c.mutex
    && (elim c.socket [ none ↦ false | some n ↦ true ])
    && c.bind_ok
    && c.listen_ok
    && c.task_ok

-- No socket and no task more than before; a mutex that was made stays.
abbrev pub Failed : Calls → Server → Server → Type 0
Failed c s r =
    (r.sockets ≡ s.sockets)
    × (r.tasks ≡ s.tasks)
    × (r.mutexes ≡ s.mutexes + (if c.mutex then 1 else 0))

-- A socket and a task more, and `http_stop` takes both back, and the mutex.
abbrev pub Runs : ℕ → Server → Server → Type 0
Runs n s r =
    (r.fd ≡ some n)
    × (r.sockets ≡ n ∷ s.sockets)
    × (r.tasks ≡ s.tasks + 1)
    × ((http_stop r).sockets ≡ s.sockets)
    × ((http_stop r).tasks ≡ s.tasks)
    × ((http_stop r).mutexes ≡ s.mutexes)

-- What a start leaves, by whether all calls succeed.
abbrev pub Attempt : Bool → Calls → Server → Server → Type 0
Attempt true c s r = (r.started ≡ false) × ((n : ℕ) × (c.socket ≡ some n) × Runs n s r)
Attempt false c s r = (r.started ≡ false) × Failed c s r

listen_on-Attempt :
    (c : Calls) (n : ℕ) (s : Server)
    → s.started ≡ false
    → c.mutex ≡ true
    → c.socket ≡ some n
    → Attempt
        (c.bind_ok && c.listen_ok && c.task_ok)
        c
        s
        (listen_on c n (record s { mutexes = s.mutexes + 1 }))
unfolding listen_on http_stop
listen_on-Attempt c n s e made g =
    let failed : Failed c s (record s {
      fd = some n;
      sockets = close_socket n (n ∷ s.sockets);
      mutexes = s.mutexes + 1;
    }) =
      (close_socket-same n s.sockets, refl, rw made refl) in
    elim (Bool-cases c.bind_ok) [
      | inr b ↦ rw (b, listen_on) (e, failed)
      | inl b ↦ elim (Bool-cases c.listen_ok) [
        | inr l ↦ rw (b, l, listen_on) (e, failed)
        | inl l ↦ elim (Bool-cases c.task_ok) [
          | inr t ↦ rw (b, l, t, listen_on) (e, failed)
          | inl t ↦
              rw (b, l, t, listen_on)
                (
                  e,
                  (
                    n,
                    g,
                    (refl, refl, refl, close_socket-same n s.sockets, omega arith, omega arith),
                  ),
                )
        ]
      ]
    ]

-- If the flag `started` is not set and all calls of `http_start` succeed, there is a listening
-- socket and a task more than before, which `http_stop` takes back with the mutex; if one of the
-- calls fails, there is neither, and a mutex that was made before it stays. In both cases the flag
-- is not set behind `http_start`.
pub http_start-Attempt :
    (c : Calls) (s : Server) → s.started ≡ false → Attempt (works c) c s (http_start c s)
unfolding http_start
http_start-Attempt c s e = elim (Bool-cases c.mutex) [
  | inr m ↦ rw (e, m, http_start) (refl, (refl, refl, omega arith))
  | inl m ↦ elim (Option-cases c.socket) [
    | inl g ↦ rw (e, m, g, http_start) (e, (refl, refl, refl))
    | inr (n, g) ↦
        let all : works c ≡ (c.bind_ok && c.listen_ok && c.task_ok) = rw (m, g) refl in
        let same : http_start c s ≡ listen_on c n (record s { mutexes = s.mutexes + 1 }) =
          simp (e, m, g, http_start) refl in
        subst (λ (w : Bool). Attempt w c s (http_start c s)) (sym all)
          (subst (λ (r : Server). Attempt (c.bind_ok && c.listen_ok && c.task_ok) c s r) (sym same)
            (listen_on-Attempt c n s e m g))
  ]
]
