-- ===== src/Device/MsgId.antt =====
-- Message ids (components/web/include/web-socket-handler.h).
use basic_setup.Prelude.{ℕ}

abbrev pub on_open : ℕ
on_open = 0

abbrev pub actuator : ℕ
actuator = 1

abbrev pub config : ℕ
config = 2

abbrev pub login : ℕ
login = 4

abbrev pub logout : ℕ
logout = 5

abbrev pub message : ℕ
message = 6

abbrev pub update_hostname : ℕ
update_hostname = 7

abbrev pub update_switches : ℕ
update_switches = 8

abbrev pub update_sensors : ℕ
update_sensors = 0x0c

abbrev pub update_password : ℕ
update_password = 0x0d

abbrev pub reset_config : ℕ
reset_config = 0x0e

abbrev pub restart : ℕ
restart = 0x0f

abbrev pub wifi_config_sta : ℕ
wifi_config_sta = 0x09

abbrev pub wifi_config_ap : ℕ
wifi_config_ap = 0x0a

abbrev pub wifi_sta_scan : ℕ
wifi_sta_scan = 0x0b
