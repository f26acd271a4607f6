-- ===== src/Youbot.antt =====
-- The driver of the KUKA youBot (std_blocks/youbot_driver/youbot_driver.c, .h), as it is compiled
-- with FIRMWARE_V2 and LIMIT_CURRENT_SOFT. The EtherCAT master is a parameter: the state of the bus
-- (`Wire`) and its mailbox calls. An `int32_t` is an integer.
pub mod Mailbox
pub mod Detect
pub mod Flags
pub mod Odometry
pub mod Base
pub mod Arm
pub mod Start
use collision_avoidance.Base.{ℕ, Option, none, some, List}
use collision_avoidance.Base.Int.{ℤ}

-- `struct youbot_slave_stats`
pub record SlaveStats : Type 0 where
  pub overcurrent : ℕ
  pub undervoltage : ℕ
  pub overvoltage : ℕ
  pub overtemp : ℕ
  pub hall_err : ℕ
  pub encoder_err : ℕ
  pub sine_comm_init_err : ℕ
  pub emergency_stop : ℕ
  pub ec_timeout : ℕ
  pub i2t_exceeded : ℕ

-- `struct youbot_motor_info`
pub record MotorInfo : Type 0 where
  pub slave_idx : ℕ
  pub msr_pos : ℤ
  pub msr_vel : ℤ
  pub msr_cur : ℤ
  pub error_flags : ℕ
  pub msr_pwm : ℤ
  pub i2t_ex : ℤ
  pub cmd_val : ℤ
  pub max_cur : ℕ
  pub stats : SlaveStats

-- `in_motor_t` and `out_motor_t`
pub record InMotor : Type 0 where
  pub position : ℤ
  pub current : ℤ
  pub velocity : ℤ
  pub flags : ℕ
  pub pwm : ℤ

pub record OutMotor : Type 0 where
  pub value : ℤ
  pub controller_mode : ℤ

-- `YOUBOT_CMODE_*`
abbrev pub cmode_motorstop : ℕ
cmode_motorstop = 0

abbrev pub cmode_positioning : ℕ
cmode_positioning = 1

abbrev pub cmode_velocity : ℕ
cmode_velocity = 2

abbrev pub cmode_set_position_to_reference : ℕ
cmode_set_position_to_reference = 4

abbrev pub cmode_current : ℕ
cmode_current = 6

abbrev pub cmode_initialize : ℕ
cmode_initialize = 7

abbrev pub nr_of_wheels : ℕ
nr_of_wheels = 4

abbrev pub nr_of_joints : ℕ
nr_of_joints = 5
