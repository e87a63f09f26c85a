-- ===== src/Lighting/LocalControl/Debounce.antt =====
-- When a switch counts as thrown.
use motorcycle_computer.Base.{
  ℕ, ◌≡◌, arith, Bool, true, false, not, ◌||◌, List, [], ◌∷◌, leb, elapsed, if◌then◌else◌,
}
use motorcycle_computer.Lighting.LocalControl.{DebouncedInput, differs, update}

-- Readings of one level, one after another.
pub update_all : DebouncedInput → Bool → ℕ → List ℕ → DebouncedInput
update_all d raw debounce_ms [] = d
update_all d raw debounce_ms (now_ms ∷ times) =
    update_all (update d raw now_ms debounce_ms).1 raw debounce_ms times

-- Some of the times lies the interval after the first.
abbrev pub any_settles : ℕ → ℕ → List ℕ → Bool
any_settles debounce_ms changed_at_ms [] = false
any_settles debounce_ms changed_at_ms (now_ms ∷ times) =
    leb debounce_ms (elapsed now_ms changed_at_ms) || any_settles debounce_ms changed_at_ms times

-- One reading of a level.
update-settled :
    (d : DebouncedInput) (raw : Bool) (now_ms debounce_ms : ℕ)
    → d.initialized ≡ true
    → d.stable ≡ raw
    → let d' = (update d raw now_ms debounce_ms).1 in (d'.initialized ≡ true) × (d'.stable ≡ raw)
unfolding update
update-settled d raw now_ms debounce_ms i s = ground arith

update-waiting :
    (d : DebouncedInput) (raw : Bool) (now_ms debounce_ms : ℕ)
    → d.initialized ≡ true
    → d.stable ≡ not raw
    → let d' = (update d raw now_ms debounce_ms).1 in
      let changed_at_ms = if differs raw d.raw then now_ms else d.changed_at_ms in
      (d'.initialized ≡ true)
      × (d'.raw ≡ raw)
      × (d'.changed_at_ms ≡ changed_at_ms)
      × (d'.stable ≡ (if leb debounce_ms (elapsed now_ms changed_at_ms) then raw else not raw))
unfolding update
update-waiting d raw now_ms debounce_ms i s = ground arith

-- A switch that counts as it reads stays so.
update_all-settled :
    (d : DebouncedInput) (raw : Bool) (debounce_ms : ℕ) (times : List ℕ)
    → d.initialized ≡ true
    → d.stable ≡ raw
    → (update_all d raw debounce_ms times).stable ≡ raw
unfolding update_all
update_all-settled d raw debounce_ms [] i s = s
update_all-settled d raw debounce_ms (now_ms ∷ times) i s =
    let next = update-settled d raw now_ms debounce_ms i s in
    update_all-settled (update d raw now_ms debounce_ms).1 raw debounce_ms times next.0 next.1

-- A switch that reads otherwise than it counts, since an earlier reading.
update_all-waiting :
    (d : DebouncedInput) (raw : Bool) (debounce_ms : ℕ) (times : List ℕ)
    → d.initialized ≡ true
    → d.raw ≡ raw
    → d.stable ≡ not raw
    → (update_all d raw debounce_ms times).stable
      ≡ (if any_settles debounce_ms d.changed_at_ms times then raw else not raw)
unfolding update_all
update_all-waiting d raw debounce_ms [] i r s = s
update_all-waiting d raw debounce_ms (now_ms ∷ times) i r s =
    let d' = (update d raw now_ms debounce_ms).1 in
    ground (
      arith,
      update-waiting d raw now_ms debounce_ms i s,
      update_all-settled d' raw debounce_ms times,
      update_all-waiting d' raw debounce_ms times,
    )

-- A switch that was read before, counted as it read, and from one reading on reads otherwise,
-- counts as thrown exactly when one of the readings, this one included, lies the debounce time
-- after it.
pub update_all-settles :
    (d : DebouncedInput) (raw : Bool) (debounce_ms now_ms : ℕ) (times : List ℕ)
    → d.initialized ≡ true
    → d.raw ≡ not raw
    → d.stable ≡ not raw
    → (update_all d raw debounce_ms (now_ms ∷ times)).stable
      ≡ (if any_settles debounce_ms now_ms (now_ms ∷ times) then raw else not raw)
unfolding update_all
update_all-settles d raw debounce_ms now_ms times i r s =
    let d' = (update d raw now_ms debounce_ms).1 in
    ground (
      arith,
      update-waiting d raw now_ms debounce_ms i s,
      update_all-settled d' raw debounce_ms times,
      update_all-waiting d' raw debounce_ms times,
    )
