-- ===== src/Lib.antt =====
-- basic-setup: the firmware of a switch controller on an ESP8266, with its desktop client.
--
-- The firmware keeps one configuration (struct app_config), in RAM and as a blob in NVS. Clients
-- connect over WebSocket; a message is a code byte and a payload, and goes to every handler that is
-- registered for its code. Handlers change the configuration, drive eight relays through a shift
-- register, and set up the WiFi.
--
-- - Prelude: Boolean tests, lists and bits over the native numbers.
-- - Device: the calls of the SDK as parameters (`Env`, with the documented laws of NVS in
--   `NvsLaws`; nvs_commit is never called, and whether a blob is
--   stored without it is a field there), the effects that leave the chip, and the codes of messages and frames.
-- - Config: struct app_config of main/include/config.h, its bytes, and `config_reset` of
--   main/config.c.
-- - Storage: the NVS half of main/config.c, from `nvs_save` to `config_load`.
-- - Registry: components/web/src/web-socket-handler.c, the handler list and its dispatch.
-- - Firmware: the handlers of main/config.c, main/actuator.c and, by way of Wifi.Handlers, main/wifi.c
--   over one state, and the boot of main/main.c up to the server. `Firmware.ShiftRegister` is a model of the shift register, which
--   is an independent description: it is not part of the program.
-- - Wifi: main/wifi.c and main/wifi_action.c over the driver of the SDK, which is a parameter; the
--   bits of main/include/state.h are fields.
-- - Gtk: clients/gtk/shb.c and clients/gtk/websocket_client.c. `Gtk.Service` is its connection:
--   the callback, the sending, and the thread that connects again and again.
-- - Http: the request handler of components/web/src/web-server.c, the loop that calls it, and the
--   start and the stop of its server.
-- - WebSocket: components/web/src/web-socket.c. Frame is the frame that `ws_sendframe` builds; Reader,
--   ReadFrame and NextFrame are the way from `recv` to a message (`next_byte`, `read_frame`,
--   `next_frame`), with the control frames of Control; Clients is the client table with `ws_accept`,
--   Sending `send_all` and the broadcast, Ping `ws_ping`, Timeout `ws_close_client` with the thread of
--   its time-out, and Connection the thread of a connection, `ws_establishconnection`. Sendframe is
--   `ws_sendframe` with what it sends to whom, Threads the operations of all threads as steps, and
--   Handshake components/web/src/web-socker-handshake.c with `do_handshake`.
-- - Session: the threads of the connections over the handlers of the firmware, and in Upgrade the
--   way from an HTTP request over the handshake to a slot.
-- - Sensor: main/sensor.c, over the converter of the SDK.
-- - Console: the commands of components/commands/src/cmd-wifi.c that act on the WiFi, `act` of
--   main/actuator.c, `ping` of components/commands/src/cmd-ping.c, and the loop of main/terminal.c.
-- - Tests: a concrete flash, radio and client, and the results applied to them.
--
-- How the state corresponds. A C structure is a record with the fields of the same names; a client is
-- the index of its slot, and a handler pointer is a value of a data type with one constructor for
-- each function. What leaves the chip is a list of effects in the order of the calls. A write
-- outside of a buffer, and a NULL that is dereferenced, are results of their own.
--
-- Most loops recurse on their count or on their list. `next_frame` and the loop of
-- `ws_establishconnection` run on fuel, one more than the bytes that `recv` can still bring: each turn
-- that goes on has read a byte. The time of a deadline is normalised with one more round than it has
-- seconds, and a netmask has 32 bits. Sizes that the C code computes in 64 or 32 bits carry their
-- `% 2 ^ 64` or `% 2 ^ 32`; the ids of PING frames in a slot stay below 2 ^ 31.
--
-- Threads. A function of web-socket.c runs in one thread at a time. What `next_frame` can see of
-- another thread, the state CLOSING and the last PING id, is given for each frame, as is whether a
-- PONG can be sent and whether `realloc` has memory (`Peer`). `ws_establishconnection` has the client
-- table to itself, and Session runs connections one after the other. In `WebSocket.Threads` the
-- operations on the table come in any order, each of them whole; a thread that acts on a state of the
-- past is a step of its own. The mutexes do not make `close_client` whole: what happens when two calls
-- of it overlap is in `WebSocket.Threads.Overlap`.
--
-- Input. What `recv` brings is a finite list, and the end of it counts as a failing `recv`. A client
-- that stays idle makes `recv` wait; that a function ends is therefore said of an input that ends.
--
-- Not modelled: the setup of the pins and of the analog
-- converter; cmd-system.c, the setup of terminal.c and what the commands print; `skip_frame` of
-- web-socket.c, which nothing calls, and its UTF-8 checks, which are compiled only with
-- VALIDATE_UTF8; SHA-1 and base64, which are copies of other projects; the web client;
-- logging. A restart is an effect, after which the model would go on.
pub mod Prelude
pub mod Device
pub mod Config
pub mod Registry
pub mod Sensor
pub mod Console
pub mod Storage
pub mod Firmware
pub mod Wifi
pub mod Gtk
pub mod Http
pub mod WebSocket
pub mod Session
pub mod Tests
