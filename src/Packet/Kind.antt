-- ===== src/Packet/Kind.antt =====
-- include/network/packet.h, `Packet::Type`: the numbers of the types.
use cs4500project.Prelude.{ℕ}

abbrev pub none : ℕ
none = 0x00

abbrev pub register : ℕ
register = 0x01

abbrev pub deregister : ℕ
deregister = 0x02

abbrev pub client_update : ℕ
client_update = 0x03

abbrev pub char_msg : ℕ
char_msg = 0x04

abbrev pub ask_for_id : ℕ
ask_for_id = 0x05

abbrev pub id : ℕ
id = 0x06

abbrev pub value_request : ℕ
value_request = 0x07

abbrev pub value_response : ℕ
value_response = 0x08

abbrev pub key_list : ℕ
key_list = 0x09

abbrev pub keep_alive : ℕ
keep_alive = 0xfc

abbrev pub error_msg : ℕ
error_msg = 0xfd

abbrev pub shutdown : ℕ
shutdown = 0xfe

abbrev pub teardown : ℕ
teardown = 0xff
