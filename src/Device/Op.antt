-- ===== src/Device/Op.antt =====
-- Frame opcodes (components/web/include/web-socket.h).
use basic_setup.Prelude.{ℕ}

abbrev pub cont : ℕ
cont = 0

abbrev pub txt : ℕ
txt = 1

abbrev pub bin : ℕ
bin = 2

abbrev pub clse : ℕ
clse = 8

abbrev pub ping : ℕ
ping = 9

abbrev pub pong : ℕ
pong = 10
