-- ===== src/Youbot/Base/Modes.antt =====
-- The control modes of the base.
use collision_avoidance.Base.{
  ℕ, ◌≡◌, refl, ◌∙◌, sym, subst, ◌⊎◌, inl, inr, Bool, true, false, Option, none, some, List, ◌==◌,
  ◌>>=◌, Bool-cases, arith,
}
use collision_avoidance.Base.Int.{ℤ, pos, ltb_ℤ, ◌-ℤ◌}
use collision_avoidance.Types.{Memory}
use collision_avoidance.Hooks.{Hooks}
use collision_avoidance.Time.{Timespec, leb_ℤ}
use collision_avoidance.Youbot.{cmode_motorstop, cmode_velocity, cmode_current, cmode_initialize}
use collision_avoidance.Youbot.Mailbox.{eq_ℤ}
use collision_avoidance.Youbot.Odometry.{Floats, BaseInfo, Layout}
use collision_avoidance.Youbot.Odometry.Served.{Ports, ports_of, AreServed}
use collision_avoidance.Youbot.Base.{
  base_check_watchdog, all_stopped, handle_cm, handle_velocity, handle_twist, handle_current,
  no_new_data, commanded, base_timeout,
}

-- The modes that the base sends to its motors.
abbrev pub IsDriven : ℕ → Type 0
IsDriven mode =
    (mode ≡ cmode_motorstop)
    ⊎ (mode ≡ cmode_velocity)
    ⊎ (mode ≡ cmode_current)
    ⊎ (mode ≡ cmode_initialize)

module _ {D S : Type 0} where
  check_watchdog-IsDriven :
      (now : Option Timespec) (trig : Bool) (base : BaseInfo D S)
      → IsDriven base.control_mode
      → IsDriven (base_check_watchdog now trig base).control_mode
  unfolding base_check_watchdog
  check_watchdog-IsDriven none trig base h = h
  check_watchdog-IsDriven (some now) true base h = h
  check_watchdog-IsDriven (some now) false base h =
      elim (Bool-cases (leb_ℤ (pos base_timeout) (now.sec -ℤ base.last_cmd.sec))) [
        | inl t ↦ rw t (inl refl)
        | inr t ↦ rw t h
      ]

module _ {D S : Type 0} where
  pub check_watchdog-ports :
      (now : Option Timespec) (trig : Bool) (base : BaseInfo D S)
      → ports_of (base_check_watchdog now trig base) ≡ ports_of base
  unfolding base_check_watchdog
  check_watchdog-ports none trig base = refl
  check_watchdog-ports (some now) true base = refl
  check_watchdog-ports (some now) false base =
      elim (Bool-cases (leb_ℤ (pos base_timeout) (now.sec -ℤ base.last_cmd.sec))) [
        | inl t ↦ rw t refl
        | inr t ↦ rw t refl
      ]

module _ {D S : Type 0} (hooks : Hooks) (fl : Floats D S) (lay : Layout D) (Good : Memory → Type 0)
    (ports : Ports) (served : AreServed hooks Good ports) where
  -- The call returns, in a good memory, and keeps the ports; `P` holds of the mode.
  abbrev pub Returns : (ℕ → Type 0) → Option (BaseInfo D S × Memory) → Type 0
  Returns P r =
      (b : BaseInfo D S) × (m : Memory) × (r ≡ some (b, m))
      × Good m
      × (ports_of b ≡ ports)
      × P b.control_mode

  no_new_data-IsDriven :
      (now : Option Timespec) (base : BaseInfo D S) (m : Memory)
      → Good m
      → ports_of base ≡ ports
      → IsDriven base.control_mode
      → Returns IsDriven (some (no_new_data hooks fl lay now base, m))
  unfolding no_new_data
  no_new_data-IsDriven now base m good e h = (
    _,
    m,
    refl,
    good,
    check_watchdog-ports now (all_stopped base.wheel_inf) base ∙ e,
    check_watchdog-IsDriven now (all_stopped base.wheel_inf) base h,
  )

  commanded-IsDriven :
      (now : Option Timespec) (vals : List ℤ) (base : BaseInfo D S) (m : Memory)
      → Good m
      → ports_of base ≡ ports
      → IsDriven base.control_mode
      → Returns IsDriven (some (commanded hooks fl lay now vals base, m))
  unfolding commanded
  commanded-IsDriven now vals base m good e h =
      (_, m, refl, good, check_watchdog-ports now true _ ∙ e, check_watchdog-IsDriven now true _ h)

  handle_twist-IsDriven :
      (now : Option Timespec) (base : BaseInfo D S) (m : Memory)
      → Good m
      → ports_of base ≡ ports
      → IsDriven base.control_mode
      → Returns IsDriven (handle_twist hooks fl lay now base m)
  unfolding handle_twist
  handle_twist-IsDriven now base m good e h =
      let here = subst (AreServed hooks Good) (sym e) served in
      let (r, got, good') = here.serves_cmd_twist.0 1 (lay.twist_bytes base.cmd_twist) m good in
      let read = record base { cmd_twist = lay.twist_of r.1 } in
      rw (got, ◌>>=◌)
        (elim (Bool-cases (ltb_ℤ (pos 0) r.0)) [
          | inl t ↦ rw t (commanded-IsDriven now _ read r.2 good' e h)
          | inr t ↦ rw t (no_new_data-IsDriven now read r.2 good' e h)
        ])

  handle_velocity-IsDriven :
      (now : Option Timespec) (stack : List ℕ) (base : BaseInfo D S) (m : Memory)
      → Good m
      → ports_of base ≡ ports
      → IsDriven base.control_mode
      → Returns IsDriven (handle_velocity hooks fl lay now stack base m)
  unfolding handle_velocity
  handle_velocity-IsDriven now stack base m good e h =
      let here = subst (AreServed hooks Good) (sym e) served in
      let (r, got, good') = here.serves_cmd_vel.0 4 stack m good in
      rw (got, ◌>>=◌)
        (elim (Bool-cases (eq_ℤ r.0 (pos 4))) [
          | inl t ↦ rw t (commanded-IsDriven now _ base r.2 good' e h)
          | inr t ↦ rw t (handle_twist-IsDriven now base r.2 good' e h)
        ])

  handle_current-IsDriven :
      (now : Option Timespec) (stack : List ℕ) (base : BaseInfo D S) (m : Memory)
      → Good m
      → ports_of base ≡ ports
      → IsDriven base.control_mode
      → Returns IsDriven (handle_current hooks fl lay now stack base m)
  unfolding handle_current
  handle_current-IsDriven now stack base m good e h =
      let here = subst (AreServed hooks Good) (sym e) served in
      let (r, got, good') = here.serves_cmd_cur.0 4 stack m good in
      rw (got, ◌>>=◌)
        (elim (Bool-cases (eq_ℤ r.0 (pos 4))) [
          | inl t ↦ rw t (commanded-IsDriven now _ base r.2 good' e h)
          | inr t ↦ rw t (no_new_data-IsDriven now base r.2 good' e h)
        ])

  -- Whatever the mode was, the switch leaves one that the base drives in.
  pub handle_cm-IsDriven :
      (now : Option Timespec) (stack : List ℕ) (base : BaseInfo D S) (m : Memory)
      → Good m
      → ports_of base ≡ ports
      → Returns IsDriven (handle_cm hooks fl lay now stack base m)
  unfolding handle_cm
  handle_cm-IsDriven now stack base m good e =
      elim (Bool-cases (base.control_mode == cmode_motorstop)) [
        | inl t ↦ rw t (base, m, refl, good, e, inl (ground arith))
        | inr t ↦ rw t (elim (Bool-cases (base.control_mode == cmode_velocity)) [
          | inl u ↦
              rw u (handle_velocity-IsDriven now stack base m good e (inr (inl (ground arith))))
          | inr u ↦ rw u (elim (Bool-cases (base.control_mode == cmode_current)) [
            | inl v ↦
                rw v
                  (handle_current-IsDriven now stack base m good e (inr (inr (inl (ground arith)))))
            | inr v ↦ rw v (elim (Bool-cases (base.control_mode == cmode_initialize)) [
              | inl x ↦ rw x (base, m, refl, good, e, inr (inr (inr (ground arith))))
              | inr x ↦
                  rw x (record base { control_mode = cmode_motorstop }, m, refl, good, e, inl refl)
            ])
          ])
        ])
      ]
