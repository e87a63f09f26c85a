-- ===== src/Security/Platform/Boot.antt =====
-- The board of the security controller, from `setup` on.
use motorcycle_computer.Base.{ℕ, ◌≡◌, refl, not, ◌&&◌}
use motorcycle_computer.Arduino.{Board, HardwareSerial, ArduinoSerialTransport, serial_transport}
use motorcycle_computer.Security.Platform.{
  Preferences, GpioSecurityHardware, PreferencesSecurityPersistence, gpio, stored, setup,
}
use motorcycle_computer.Security.Server.{SecurityServer, is_armed, is_alarm}
use motorcycle_computer.Security.Server.Outputs.{IsLatching, IsSafe}
use motorcycle_computer.Security.Server.Safety.{restore_persisted_state-IsSafe}
use motorcycle_computer.Security.Server.Reach.{Reach, link, Step-IsSafe, Reach-IsSafe}

pub gpio-IsLatching : {B : Type 0} → ⦃b : Board B⦄ → IsLatching (gpio ⦃b = b⦄)
gpio-IsLatching = record {
  alarm_works = λ h b. refl;
  alarm_reads = λ h b. refl;
  alarm_alone = λ h b. refl;
  inhibit_reads = λ h b. refl;
  inhibit_alone = λ h b. refl;
}

module _ {P B F : Type 0} ⦃hs : HardwareSerial P⦄ ⦃b : Board B⦄ ⦃f : Preferences F⦄ where
  pub setup-IsSafe :
      (serial : P) (board : B) (preferences : F) (now_ms : ℕ)
      → IsSafe (setup serial board preferences now_ms)
  unfolding setup
  setup-IsSafe serial board preferences now_ms =
      Step-IsSafe gpio-IsLatching (link _)
        (restore_persisted_state-IsSafe gpio-IsLatching _ now_ms).0

  -- Whatever the board's pins and its stored setting are at `setup`, and whatever happens
  -- afterwards, the alarm output is on exactly in the alarm mode, and the output that prevents
  -- starting exactly when the server is locked or in alarm and the engine counts as stopped.
  pub Reach-setup :
      (serial : P) (board : B) (preferences : F) (now_ms : ℕ)
      {u : SecurityServer
        (ArduinoSerialTransport P)
        (GpioSecurityHardware B)
        (PreferencesSecurityPersistence F)}
      → Reach (setup serial board preferences now_ms) u
      → (u.hardware.alarm ≡ is_alarm u.mode)
        × (u.hardware.inhibit ≡ (is_armed u.mode && not u.engine.running))
  Reach-setup serial board preferences now_ms r =
      let v = Reach-IsSafe gpio-IsLatching r (setup-IsSafe serial board preferences now_ms) in
      (v.consistent.output, v.inhibit)
