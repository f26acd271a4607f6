-- ===== src/Youbot/Odometry/Served.antt =====
-- Ports that can be read and written, and the output of the base to them.
use collision_avoidance.Base.{
  ℕ, ◌+◌, ◌≡◌, refl, inl, inr, Option, some, List, map, ltb, Bool-cases, ◌>>=◌,
}
use collision_avoidance.Base.Int.{ℤ}
use collision_avoidance.Types.{Memory}
use collision_avoidance.Hooks.{Hooks}
use collision_avoidance.Boxed.{read_boxed, write_boxed}
use collision_avoidance.Youbot.Odometry.{
  Floats, BaseInfo, Layout, base_output_msr_data, measured_twist, moved, odometry,
}

-- The ports of the base.
pub record Ports : Type 0 where
  pub control_mode : Option ℕ
  pub cmd_twist : Option ℕ
  pub cmd_vel : Option ℕ
  pub cmd_cur : Option ℕ
  pub msr_odom : Option ℕ
  pub msr_twist : Option ℕ
  pub motorinfo : Option ℕ

abbrev pub ports_of : {D S : Type 0} → BaseInfo D S → Ports
ports_of base = record {
  control_mode = base.p_control_mode;
  cmd_twist = base.p_cmd_twist;
  cmd_vel = base.p_cmd_vel;
  cmd_cur = base.p_cmd_cur;
  msr_odom = base.p_msr_odom;
  msr_twist = base.p_msr_twist;
  motorinfo = base.p_base_motorinfo;
}

-- In the memories that are `Good`, reads and writes of a port return, and leave a good memory.
abbrev pub Serves : Hooks → (Memory → Type 0) → Option ℕ → Type 0
Serves hooks Good p =
    ((n : ℕ) (old : List ℕ) (m : Memory)
      → Good m
      → (r : ℤ × List ℕ × Memory) × (read_boxed hooks p n old m ≡ some r) × Good r.2)
    × ((n : ℕ) (value : List ℕ) (m : Memory)
        → Good m
        → (m' : Memory) × (write_boxed hooks p n value m ≡ some m') × Good m')

pub record AreServed (hooks : Hooks) (Good : Memory → Type 0) (ports : Ports) : Type 0 where
  pub serves_mode : Serves hooks Good ports.control_mode
  pub serves_cmd_twist : Serves hooks Good ports.cmd_twist
  pub serves_cmd_vel : Serves hooks Good ports.cmd_vel
  pub serves_cmd_cur : Serves hooks Good ports.cmd_cur
  pub serves_odom : Serves hooks Good ports.msr_odom
  pub serves_twist : Serves hooks Good ports.msr_twist
  pub serves_info : Serves hooks Good ports.motorinfo

-- The base after its output to served ports; neither its mode nor its wheels change.
abbrev pub Put :
    {D S : Type 0} → (Memory → Type 0) → BaseInfo D S → Option (BaseInfo D S × Memory) → Type 0
Put {D} {S} Good base r =
    (b : BaseInfo D S) × (m : Memory) × (r ≡ some (b, m))
    × Good m
    × (ports_of b ≡ ports_of base)
    × (b.control_mode ≡ base.control_mode)

pub output-Put :
    {D S : Type 0} (fl : Floats D S) (hooks : Hooks) (lay : Layout D) (Good : Memory → Type 0)
    (base : BaseInfo D S) (m : Memory)
    → AreServed hooks Good (ports_of base)
    → Good m
    → Put Good base (base_output_msr_data fl hooks lay base m)
unfolding base_output_msr_data odometry
output-Put fl hooks lay Good base m served good =
    let poss = map (λ w. w.msr_pos) base.wheel_inf in
    let vels = map (λ w. w.msr_vel) base.wheel_inf in
    let curs = map (λ w. w.msr_cur) base.wheel_inf in
    let twist = measured_twist fl vels base.msr_twist in
    let here = record base { msr_twist = twist; last_pos = poss } in
    let next = odometry fl (moved fl poss base.last_pos) here in
    let (m1, put1, good1) = served.serves_info.1 1 (lay.motorinfo_bytes poss vels curs) m good in
    let (m2, put2, good2) = served.serves_twist.1 1 (lay.twist_bytes twist) m1 good1 in
    let (m3, put3, good3) = served.serves_odom.1 1 (lay.frame_bytes next.msr_odom) m2 good2 in
    rw (put1, put2, ◌>>=◌)
      (elim (Bool-cases (ltb base.odom_started 10)) [
        | inl t ↦
            rw t (record here { odom_started = base.odom_started + 1 }, m2, refl, good2, refl, refl)
        | inr t ↦ rw (t, put3, ◌>>=◌) (next, m3, refl, good3, refl, refl)
      ])
