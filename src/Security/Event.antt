-- ===== src/Security/Event.antt =====
-- `SecurityEventCode` of library/include/bike/security.hpp.
use motorcycle_computer.Base.{ℕ}

abbrev pub shock_warning : ℕ
shock_warning = 0x01

abbrev pub shock_trigger : ℕ
shock_trigger = 0x02

abbrev pub alarm_started : ℕ
alarm_started = 0x03

abbrev pub alarm_stopped : ℕ
alarm_stopped = 0x04

abbrev pub locked : ℕ
locked = 0x05

abbrev pub unlocked : ℕ
unlocked = 0x06

abbrev pub lock_pending : ℕ
lock_pending = 0x07
