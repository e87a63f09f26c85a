-- ===== src/Protocol/Packet/NodeAddress.antt =====
-- protocol/include/bike_protocol/addresses.hpp.
use motorcycle_computer.Base.{ℕ}

abbrev pub main_computer : ℕ
main_computer = 0x01

abbrev pub diagnostic_computer : ℕ
diagnostic_computer = 0x02

abbrev pub northbridge : ℕ
northbridge = 0x10

abbrev pub lighting : ℕ
lighting = 0x20

abbrev pub security : ℕ
security = 0x21

abbrev pub broadcast : ℕ
broadcast = 0xFF
