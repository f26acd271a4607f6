-- ===== src/Examples/Bases.antt =====
-- The base of a robot whose ports are not connected.
use collision_avoidance.Base.{
  ℕ, ◌≡◌, refl, ◌∙◌, ap, none, false, inl, inr, true, false, Option, some, List, [], ◌∷◌, ◌==◌,
  ◌>>=◌, Bool-cases, get_or, map, ◌+◌, ◌^◌, if◌then◌else◌,
}
use collision_avoidance.Base.Int.{ℤ, pos, negsuc, ltb_ℤ, ◌-ℤ◌}
use collision_avoidance.Types.{Memory}
use collision_avoidance.Comm.{port_read, same_type}
use collision_avoidance.Time.{Timespec}
use collision_avoidance.Boxed.{read_boxed}
use collision_avoidance.Youbot.{MotorInfo, SlaveStats, InMotor, OutMotor, cmode_motorstop}
use collision_avoidance.Youbot.Flags.Counts.{any_stopping}
use collision_avoidance.Youbot.Odometry.{Floats, Vector, Twist, BaseInfo, Layout}
use collision_avoidance.Youbot.Base.{all_stopped}
use collision_avoidance.Youbot.Base.Watchdog.{NoData, switches, late, any_late, switches_lem}
use collision_avoidance.Examples.{world, hooks}

abbrev floats : Floats Unit Unit
floats = record {
  lit = λ s. tt;
  of_int = λ z. tt;
  to_int = λ d. pos 0;
  add = λ a b. tt;
  sub = λ a b. tt;
  mul = λ a b. tt;
  div = λ a b. tt;
  neg = λ a. tt;
  sin = λ a. tt;
  cos = λ a. tt;
  narrow = λ a. tt;
  widen = λ a. tt;
  of_int_s = λ z. tt;
  add_s = λ a b. tt;
  sub_s = λ a b. tt;
  mul_s = λ a b. tt;
  div_s = λ a b. tt;
  neg_s = λ a. tt;
}

abbrev origin : Vector Unit
origin = record { x = tt; y = tt; z = tt }

abbrev still : Twist Unit
still = record { vel = origin; rot = origin }

abbrev layout : Layout Unit
layout = record {
  int_of = λ bs. pos (get_or bs 0 0);
  ints_of = λ bs. map (λ b. pos b) bs;
  int_bytes = λ z. 0 ∷ [];
  twist_of = λ bs. still;
  twist_bytes = λ t. [];
  frame_bytes = λ f. [];
  motorinfo_bytes = λ p v c. [];
}

abbrev no_errors : SlaveStats
no_errors = record {
  overcurrent = 0;
  undervoltage = 0;
  overvoltage = 0;
  overtemp = 0;
  hall_err = 0;
  encoder_err = 0;
  sine_comm_init_err = 0;
  emergency_stop = 0;
  ec_timeout = 0;
  i2t_exceeded = 0;
}

-- A wheel that is commanded to move.
abbrev pub wheel : ℕ → MotorInfo
wheel i = record {
  slave_idx = i;
  msr_pos = pos 0;
  msr_vel = pos 0;
  msr_cur = pos 0;
  error_flags = 0;
  msr_pwm = pos 0;
  i2t_ex = pos 0;
  cmd_val = pos 100;
  max_cur = 0;
  stats = no_errors;
}

abbrev base : BaseInfo Unit Unit
base = record {
  mod_init_stat = 15;
  control_mode = 2;
  wheel_inf = wheel 2 ∷ wheel 3 ∷ wheel 4 ∷ wheel 5 ∷ [];
  last_cmd = record { sec = pos 10; nsec = pos 0 };
  cmd_twist = still;
  msr_odom = record { p = origin; rotation = [] };
  odom_started = 0;
  last_pos = pos 0 ∷ pos 0 ∷ pos 0 ∷ pos 0 ∷ [];
  odom_yaw = tt;
  msr_twist = still;
  p_control_mode = some 2;
  p_cmd_twist = some 2;
  p_cmd_vel = some 2;
  p_cmd_cur = some 2;
  p_msr_odom = some 1;
  p_msr_twist = some 1;
  p_base_motorinfo = some 1;
}

-- The memory stays as it is.
abbrev Good : Memory → Type 0
Good m = m ≡ world

abbrev inputs : ℕ → InMotor
inputs q = record { position = pos 1; current = pos 2; velocity = pos 3; flags = 0; pwm = pos 0 }

abbrev outputs : ℕ → OutMotor
outputs q = record { value = pos 0; controller_mode = pos 0 }

abbrev clock : ℕ → Option Timespec
clock k = some (record { sec = pos 11; nsec = pos 0 })

silent_port2 :
    (n : ℕ) (old : List ℕ)
    → (r : ℤ × List ℕ × Memory) × (read_boxed hooks (some 2) n old world ≡ some r)
      × (ltb_ℤ (pos 0) r.0 ≡ false)
      × (r.2 ≡ world)
unfolding read_boxed port_read same_type
silent_port2 n old = elim (Bool-cases (n == 0)) [
  | inl z ↦ rw (z, ◌>>=◌) ((negsuc 0, old, world), refl, refl, refl)
  | inr z ↦ rw (z, ◌>>=◌) ((pos 0, old, world), refl, refl, refl)
]

no_data2 : NoData hooks Good (some 2)
no_data2 n old m e =
    let (r, got, nothing, same) = silent_port2 n old in
    (r, ap (λ w. read_boxed hooks (some 2) n old w) e ∙ got, nothing, same)

-- One second after the last command, a reading that fails, two seconds after it, and once more.
abbrev times : List (Option Timespec)
times =
    some (record { sec = pos 11; nsec = pos 0 })
    ∷ none
    ∷ some (record { sec = pos 12; nsec = pos 0 })
    ∷ some (record { sec = pos 13; nsec = pos 0 })
    ∷ []

switches_lem_example :
    (b : BaseInfo Unit Unit) × (m' : Memory) × (switches hooks floats layout [] times base world
      ≡ some (b, m'))
    × (b.wheel_inf ≡ base.wheel_inf)
    × (b.last_cmd ≡ base.last_cmd)
    × (b.control_mode ≡ (if any_late base.last_cmd times then cmode_motorstop else 2))
unfolding all_stopped
switches_lem_example =
    switches_lem hooks floats layout Good [] times base world
      (record { no_vel = no_data2; no_twist = no_data2; no_cur = no_data2 }) refl refl
      (inr (inl refl))

times_are_late : any_late base.last_cmd times ≡ true
unfolding any_late late ◌-ℤ◌
times_are_late = refl

-- A wheel with I2T_EXCEEDED and MODULE_INIT.
abbrev hot_wheel : MotorInfo
hot_wheel = record (wheel 3) { error_flags = 2 ^ 17 + 2 ^ 15 }

hot_stops : any_stopping false (wheel 2 ∷ hot_wheel ∷ []) ≡ true
unfolding any_stopping
hot_stops = refl
