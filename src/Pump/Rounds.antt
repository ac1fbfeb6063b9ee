-- ===== src/Pump/Rounds.antt =====
-- The order in which `pump_transfer` serves the connections.
use os_tasks.Prelude.{ℕ, ◌+◌, ◌-◌, ◌%◌, ◌≤◌, ◌<◌, ◌≡◌, arith}
use native.Mathlib.Nat.{mod-lt}
use os_tasks.Pump.{round_index}

-- In its 255 rounds, the transfer comes to every connection id from 1 to 255.
pub round_index_reaches :
    (index id : ℕ) → 1 ≤ id → id ≤ 255 → (i : ℕ) × (i < 255) × (round_index index i ≡ id)
unfolding round_index
round_index_reaches index id l h = (
  (id + 254 - index % 255) % 255,
  mod-lt (id + 254 - index % 255) {m = 255} (omega arith),
  omega arith,
)
