-- ===== src/Youbot/Odometry.antt =====
-- What the base measures (`struct youbot_base_info`, `base_output_msr_data`, `twist_to_wheel_val`).
-- The arithmetic of `double` and `float` and the bytes of the values that are sent through ports are
-- parameters. `none` is a fault.
pub mod Served
use collision_avoidance.Base.{
  ℕ, zero, suc, ◌+◌, ◌*◌, true, false, Option, none, some, List, [], ◌∷◌, map, ltb, get_or,
  if◌then◌else◌, ◌>>=◌, String,
}
use collision_avoidance.Base.Int.{ℤ, pos, ◌+ℤ◌, ◌-ℤ◌}
use collision_avoidance.Types.{Memory}
use collision_avoidance.Hooks.{Hooks}
use collision_avoidance.Time.{Timespec}
use collision_avoidance.Boxed.{write_boxed}
use collision_avoidance.Youbot.{MotorInfo, nr_of_wheels}

-- `double` (D) and `float` (S), with the literals by their text.
pub record Floats (D S : Type 0) : Type 0 where
  pub lit : String → D
  pub of_int : ℤ → D
  pub to_int : D → ℤ
  pub add : D → D → D
  pub sub : D → D → D
  pub mul : D → D → D
  pub div : D → D → D
  pub neg : D → D
  pub sin : D → D
  pub cos : D → D
  pub narrow : D → S
  pub widen : S → D
  pub of_int_s : ℤ → S
  pub add_s : S → S → S
  pub sub_s : S → S → S
  pub mul_s : S → S → S
  pub div_s : S → S → S
  pub neg_s : S → S

-- `struct kdl_vector`, `struct kdl_twist`, `struct kdl_frame`
pub record Vector (D : Type 0) : Type 0 where
  pub x : D
  pub y : D
  pub z : D

pub record Twist (D : Type 0) : Type 0 where
  pub vel : Vector D
  pub rot : Vector D

pub record Frame (D : Type 0) : Type 0 where
  pub p : Vector D
  pub rotation : List D

pub record BaseInfo (D S : Type 0) : Type 0 where
  pub mod_init_stat : ℕ
  pub control_mode : ℕ
  pub wheel_inf : List MotorInfo
  pub last_cmd : Timespec
  pub cmd_twist : Twist D
  pub msr_odom : Frame D
  pub odom_started : ℕ
  pub last_pos : List ℤ
  pub odom_yaw : S
  pub msr_twist : Twist D
  pub p_control_mode : Option ℕ
  pub p_cmd_twist : Option ℕ
  pub p_cmd_vel : Option ℕ
  pub p_cmd_cur : Option ℕ
  pub p_msr_odom : Option ℕ
  pub p_msr_twist : Option ℕ
  pub p_base_motorinfo : Option ℕ

-- The bytes of the values.
pub record Layout (D : Type 0) : Type 0 where
  pub int_of : List ℕ → ℤ
  pub ints_of : List ℕ → List ℤ
  pub int_bytes : ℤ → List ℕ
  pub twist_of : List ℕ → Twist D
  pub twist_bytes : Twist D → List ℕ
  pub frame_bytes : Frame D → List ℕ
  pub motorinfo_bytes : List ℤ → List ℤ → List ℤ → List ℕ

module _ {D S : Type 0} (fl : Floats D S) where
  -- `YOUBOT_WHEEL_CIRCUMFERENCE`, and the macros `YOUBOT_CARTESIAN_VELOCITY_TO_RPM` and
  -- `YOUBOT_ANGULAR_TO_WHEEL_VELOCITY` after a factor: they have no parentheses around them.
  circumference : D
  circumference = fl.mul (fl.mul (fl.lit "0.052") (fl.of_int (pos 2))) (fl.lit "M_PI")

  times_angular : D → D
  times_angular d = fl.div (fl.mul d (fl.add (fl.lit "0.47") (fl.lit "0.3"))) (fl.of_int (pos 2))

  wheels_to_rpm : D
  unfolding circumference
  wheels_to_rpm = fl.div (fl.of_int (pos (nr_of_wheels * 1560))) circumference

  -- The measured twist from the velocities of the wheels.
  measured_twist : List ℤ → Twist D → Twist D
  unfolding wheels_to_rpm times_angular
  measured_twist vels t =
      let v0 = get_or vels 0 (pos 0) in
      let v1 = get_or vels 1 (pos 0) in
      let v2 = get_or vels 2 (pos 0) in
      let v3 = get_or vels 3 (pos 0) in
      let rpm = wheels_to_rpm in
      record {
        vel = record t.vel {
          x = fl.div (fl.of_int (v0 -ℤ v1 +ℤ v2 -ℤ v3)) rpm;
          y = fl.div (fl.of_int (pos 0 -ℤ v0 -ℤ v1 +ℤ v2 +ℤ v3)) rpm;
        };
        rot = record t.rot {
          z = fl.div (fl.of_int (pos 0 -ℤ v0 -ℤ v1 -ℤ v2 -ℤ v3)) (times_angular rpm);
        };
      }

  -- How far each wheel has moved since the last time.
  moved : List ℤ → List ℤ → List S
  unfolding circumference
  moved [] last = []
  moved (p ∷ ps) [] = []
  moved (p ∷ ps) (l ∷ ls) =
      let ticks = fl.mul_s (fl.of_int_s (p -ℤ l)) (fl.narrow circumference) in
      fl.div_s ticks (fl.of_int_s (pos 106496)) ∷ moved ps ls

  -- The odometry with the distances of the wheels.
  odometry : List S → BaseInfo D S → BaseInfo D S
  unfolding times_angular
  odometry delta base =
      let zero_s = fl.of_int_s (pos 0) in
      let d0 = get_or delta 0 zero_s in
      let d1 = get_or delta 1 zero_s in
      let d2 = get_or delta 2 zero_s in
      let d3 = get_or delta 3 zero_s in
      let four = fl.of_int_s (pos nr_of_wheels) in
      let sum = fl.add_s (fl.add_s (fl.add_s d0 d1) d2) d3 in
      let turn = fl.div (fl.widen sum) (times_angular (fl.of_int (pos nr_of_wheels))) in
      let yaw = fl.narrow (fl.add (fl.widen base.odom_yaw) turn) in
      let ahead = fl.widen (fl.div_s (fl.sub_s (fl.add_s (fl.sub_s d0 d1) d2) d3) four) in
      let aside =
        fl.widen (fl.div_s (fl.add_s (fl.add_s (fl.sub_s (fl.neg_s d0) d1) d2) d3) four) in
      let c = fl.cos (fl.widen yaw) in
      let s = fl.sin (fl.widen yaw) in
      let dx = fl.neg (fl.sub (fl.mul ahead c) (fl.mul aside s)) in
      let dy = fl.neg (fl.add (fl.mul ahead s) (fl.mul aside c)) in
      let p = base.msr_odom.p in
      record base {
        odom_yaw = yaw;
        msr_odom = record base.msr_odom { p = record p { x = fl.add p.x dx; y = fl.add p.y dy } };
      }

  unfoldable pub base_output_msr_data :
      Hooks → Layout D → BaseInfo D S → Memory → Option (BaseInfo D S × Memory)
  unfolding measured_twist moved odometry
  base_output_msr_data hooks lay base m = do
    let poss = map (λ w. w.msr_pos) base.wheel_inf
    let vels = map (λ w. w.msr_vel) base.wheel_inf
    let curs = map (λ w. w.msr_cur) base.wheel_inf
    m1 ← write_boxed hooks base.p_base_motorinfo 1 (lay.motorinfo_bytes poss vels curs) m
    let twist = measured_twist vels base.msr_twist
    m2 ← write_boxed hooks base.p_msr_twist 1 (lay.twist_bytes twist) m1
    let measured = record base { msr_twist = twist }
    let here = record measured { last_pos = poss }
    elim (ltb base.odom_started 10) [
      | true ↦ some (record here { odom_started = base.odom_started + 1 }, m2)
      | false ↦ do
        let next = odometry (moved poss base.last_pos) here
        m3 ← write_boxed hooks base.p_msr_odom 1 (lay.frame_bytes next.msr_odom) m2
        some (next, m3)
    ]

  -- `cmd_twist` as the commanded values of the wheels.
  unfoldable pub twist_to_wheel_val : Twist D → List ℤ
  unfolding circumference times_angular
  twist_to_wheel_val t =
      let turn = times_angular t.rot.z in
      let rpm : D → ℤ = λ d. fl.to_int (fl.div (fl.mul d (fl.of_int (pos 1560))) circumference) in
      rpm (fl.add (fl.add (fl.neg t.vel.x) t.vel.y) turn)
      ∷ rpm (fl.add (fl.add t.vel.x t.vel.y) turn)
      ∷ rpm (fl.add (fl.sub (fl.neg t.vel.x) t.vel.y) turn)
      ∷ rpm (fl.add (fl.sub t.vel.x t.vel.y) turn)
      ∷ []
