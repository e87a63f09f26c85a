-- ===== src/Security/Command.antt =====
-- `SecurityCommand` of library/include/bike/security.hpp: bytes, since a command is cast from one.
use motorcycle_computer.Base.{ℕ}

abbrev pub lock : ℕ
lock = 0x01

abbrev pub unlock : ℕ
unlock = 0x02

abbrev pub silence_alarm : ℕ
silence_alarm = 0x03

abbrev pub request_state : ℕ
request_state = 0x04
