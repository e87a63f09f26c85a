-- ===== src/Protocol/Packet/MessageType.antt =====
-- protocol/include/bike_protocol/messages.hpp.
use motorcycle_computer.Base.{ℕ}

abbrev pub heartbeat : ℕ
heartbeat = 0x01

abbrev pub ack : ℕ
ack = 0x02

abbrev pub nack : ℕ
nack = 0x03

abbrev pub get_state : ℕ
get_state = 0x10

abbrev pub state_update : ℕ
state_update = 0x11

abbrev pub set_output : ℕ
set_output = 0x20

abbrev pub input_event : ℕ
input_event = 0x21

abbrev pub lighting_diagnostic : ℕ
lighting_diagnostic = 0x22

abbrev pub config_read : ℕ
config_read = 0x30

abbrev pub config_write : ℕ
config_write = 0x31

abbrev pub fault : ℕ
fault = 0x40

abbrev pub fault_clear : ℕ
fault_clear = 0x41

abbrev pub device_info : ℕ
device_info = 0x50

abbrev pub device_discovery : ℕ
device_discovery = 0x51

abbrev pub diagnostic : ℕ
diagnostic = 0x60

abbrev pub security_command : ℕ
security_command = 0x70

abbrev pub security_state : ℕ
security_state = 0x71

abbrev pub security_event : ℕ
security_event = 0x72

abbrev pub auth_request : ℕ
auth_request = 0x78

abbrev pub auth_result : ℕ
auth_result = 0x79

abbrev pub fob_present : ℕ
fob_present = 0x7A
