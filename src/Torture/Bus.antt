-- ===== src/Torture/Bus.antt =====
-- The guest's bus: what a load and a store of a byte do to the state of what is behind it.
use pico_thing_main.Base.{ℕ}

pub record GuestBus (S : Type 0) : Type 0 where
  pub load : ℕ → S → ℕ × S
  pub store : ℕ → ℕ → S → S
