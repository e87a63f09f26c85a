-- ===== src/Protocol/DeviceInfo/Word.antt =====
-- A word of four bytes in a payload: what `put_device_u32` writes, and what it leaves alone.
use motorcycle_computer.Base.{
  ℕ, ◌+◌, ◌/◌, ◌≤◌, ◌<◌, ◌≡◌, ◌≢◌, ◌∙◌, arith, List, length, get_or, set, length-set,
  get_or-set_self, get_or-set_ne, u8,
}
use motorcycle_computer.Protocol.DeviceInfo.{put_device_u32}

-- The bytes of a word stand at an index.
pub record HoldsWord (bytes : List ℕ) (i value : ℕ) : Type 0 where
  pub byte0 : get_or bytes i 0 ≡ u8 (value / 16777216)
  pub byte1 : get_or bytes (i + 1) 0 ≡ u8 (value / 65536)
  pub byte2 : get_or bytes (i + 2) 0 ≡ u8 (value / 256)
  pub byte3 : get_or bytes (i + 3) 0 ≡ u8 value

pub length-put_device_u32 :
    (bytes : List ℕ) (i value : ℕ) → length (put_device_u32 bytes i value) ≡ length bytes
unfolding put_device_u32
length-put_device_u32 bytes i value =
    let p₁ = set bytes i (u8 (value / 16777216)) in
    let p₂ = set p₁ (i + 1) (u8 (value / 65536)) in
    let p₃ = set p₂ (i + 2) (u8 (value / 256)) in
    omega (
      arith,
      length-set bytes i (u8 (value / 16777216)),
      length-set p₁ (i + 1) (u8 (value / 65536)),
      length-set p₂ (i + 2) (u8 (value / 256)),
      length-set p₃ (i + 3) (u8 value),
    )

-- A read of another byte than the one that was written.
get_or-set_other :
    (bytes : List ℕ) (i j v : ℕ) → j ≢ i → get_or (set bytes j v) i 0 ≡ get_or bytes i 0
get_or-set_other bytes i j v h = get_or-set_ne bytes v 0 h

pub get_or-put_device_u32 :
    (bytes : List ℕ) (i value k : ℕ)
    → k < i
    → get_or (put_device_u32 bytes i value) k 0 ≡ get_or bytes k 0
unfolding put_device_u32
get_or-put_device_u32 bytes i value k h =
    let p₁ = set bytes i (u8 (value / 16777216)) in
    let p₂ = set p₁ (i + 1) (u8 (value / 65536)) in
    let p₃ = set p₂ (i + 2) (u8 (value / 256)) in
    get_or-set_other p₃ k (i + 3) (u8 value) (omega arith)
    ∙ get_or-set_other p₂ k (i + 2) (u8 (value / 256)) (omega arith)
    ∙ get_or-set_other p₁ k (i + 1) (u8 (value / 65536)) (omega arith)
    ∙ get_or-set_other bytes k i (u8 (value / 16777216)) (omega arith)

-- Writing a later word leaves the earlier one.
pub HoldsWord-put_device_u32 :
    (bytes : List ℕ) (i value j w : ℕ)
    → i + 4 ≤ j
    → HoldsWord bytes i value
    → HoldsWord (put_device_u32 bytes j w) i value
HoldsWord-put_device_u32 bytes i value j w h v = record {
  byte0 = get_or-put_device_u32 bytes j w i (omega arith) ∙ v.byte0;
  byte1 = get_or-put_device_u32 bytes j w (i + 1) (omega arith) ∙ v.byte1;
  byte2 = get_or-put_device_u32 bytes j w (i + 2) (omega arith) ∙ v.byte2;
  byte3 = get_or-put_device_u32 bytes j w (i + 3) (omega arith) ∙ v.byte3;
}

pub put_device_u32-HoldsWord :
    (bytes : List ℕ) (i value : ℕ)
    → i + 4 ≤ length bytes
    → HoldsWord (put_device_u32 bytes i value) i value
unfolding put_device_u32
put_device_u32-HoldsWord bytes i value h =
    let b₀ = u8 (value / 16777216) in
    let b₁ = u8 (value / 65536) in
    let b₂ = u8 (value / 256) in
    let b₃ = u8 value in
    let p₁ = set bytes i b₀ in
    let p₂ = set p₁ (i + 1) b₁ in
    let p₃ = set p₂ (i + 2) b₂ in
    let l₁ = length-set bytes i b₀ in
    let l₂ = length-set p₁ (i + 1) b₁ in
    let l₃ = length-set p₂ (i + 2) b₂ in
    record {
      byte0 =
          get_or-set_other p₃ i (i + 3) b₃ (omega arith)
          ∙ get_or-set_other p₂ i (i + 2) b₂ (omega arith)
          ∙ get_or-set_other p₁ i (i + 1) b₁ (omega arith)
          ∙ get_or-set_self bytes i b₀ 0 (omega arith);
      byte1 =
          get_or-set_other p₃ (i + 1) (i + 3) b₃ (omega arith)
          ∙ get_or-set_other p₂ (i + 1) (i + 2) b₂ (omega arith)
          ∙ get_or-set_self p₁ (i + 1) b₁ 0 (omega arith);
      byte2 =
          get_or-set_other p₃ (i + 2) (i + 3) b₃ (omega arith)
          ∙ get_or-set_self p₂ (i + 2) b₂ 0 (omega arith);
      byte3 = get_or-set_self p₃ (i + 3) b₃ 0 (omega arith);
    }
