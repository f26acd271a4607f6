-- ===== src/Youbot/Base/Update.antt =====
-- A whole cycle of the base.
use collision_avoidance.Base.{ℕ, ◌≡◌, ◌⊎◌, true, false, Option, List, ◌==◌, All}
use collision_avoidance.Base.Int.{pos}
use collision_avoidance.Types.{Memory}
use collision_avoidance.Hooks.{Hooks}
use collision_avoidance.Youbot.{MotorInfo, OutMotor, cmode_initialize}
use collision_avoidance.Youbot.Odometry.{Floats, BaseInfo, Layout}
use collision_avoidance.Youbot.Odometry.Served.{Ports, AreServed}
use collision_avoidance.Youbot.Base.Modes.{IsDriven, Returns}

-- The motors of a list are sent a mode.
abbrev pub AreSent : ℕ → (ℕ → OutMotor) → List MotorInfo → Type 0
AreSent mode outputs ws = All (λ w. (outputs w.slave_idx).controller_mode ≡ pos mode) ws

-- The mode of a base whose initialised motors are `stat`: INITIALIZE until it is configured, and
-- one of the modes that it drives in after that.
abbrev pub Mode : ℕ → ℕ → Type 0
Mode stat mode =
    (((stat == 15) ≡ false) × (mode ≡ cmode_initialize)) ⊎ (((stat == 15) ≡ true) × IsDriven mode)

module _ {D S : Type 0} (hooks : Hooks) (fl : Floats D S) (lay : Layout D) (Good : Memory → Type 0)
    (ports : Ports) (served : AreServed hooks Good ports) where
  -- As `Returns`, of any mode.
  abbrev Kept : Option (BaseInfo D S × Memory) → Type 0
  Kept r = Returns hooks fl lay Good ports served (λ mode. Unit) r
