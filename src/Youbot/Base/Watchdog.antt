-- ===== src/Youbot/Base/Watchdog.antt =====
-- The watchdog of the base, over the cycles in which no command comes.
use collision_avoidance.Base.{
  ℕ, ◌≡◌, refl, ◌∙◌, ap, sym, subst, ◌⊎◌, inl, inr, Bool, true, false, ◌||◌, Option, none, some,
  List, [], ◌∷◌, ◌==◌, if◌then◌else◌, ◌>>=◌, Bool-cases, arith,
}
use collision_avoidance.Base.Int.{ℤ, pos, ltb_ℤ, ◌-ℤ◌}
use collision_avoidance.Types.{Memory}
use collision_avoidance.Hooks.{Hooks}
use collision_avoidance.Time.{Timespec, leb_ℤ}
use collision_avoidance.Boxed.{read_boxed}
use collision_avoidance.Youbot.{cmode_motorstop, cmode_velocity, cmode_current}
use collision_avoidance.Youbot.Mailbox.{eq_ℤ}
use collision_avoidance.Youbot.Odometry.{Floats, BaseInfo, Layout}
use collision_avoidance.Youbot.Odometry.Served.{Ports, ports_of}
use collision_avoidance.Youbot.Base.{
  base_check_watchdog, all_stopped, handle_cm, handle_velocity, handle_twist, handle_current,
  no_new_data,
}

-- The switch of `base_proc_update` once for each reading of the clock, `none` where it fails.
unfoldable pub switches :
    {D S : Type 0}
    → Hooks
    → Floats D S
    → Layout D
    → List ℕ
    → List (Option Timespec)
    → BaseInfo D S
    → Memory
    → Option (BaseInfo D S × Memory)
switches hooks fl lay stack [] base m = some (base, m)
switches hooks fl lay stack (now ∷ times) base m =
    handle_cm hooks fl lay now stack base m >>= λ r. switches hooks fl lay stack times r.0 r.1

-- The reading is two seconds or more past the last command.
unfoldable pub late : Timespec → Option Timespec → Bool
late last none = false
late last (some t) = leb_ℤ (pos 2) (t.sec -ℤ last.sec)

unfoldable pub any_late : Timespec → List (Option Timespec) → Bool
any_late last [] = false
any_late last (now ∷ times) = late last now || any_late last times

-- In the memories that are `Good`, a read of the port returns no data, and leaves a good memory.
abbrev pub NoData : Hooks → (Memory → Type 0) → Option ℕ → Type 0
NoData hooks Good p =
    (n : ℕ) (old : List ℕ) (m : Memory)
    → Good m
    → (r : ℤ × List ℕ × Memory) × (read_boxed hooks p n old m ≡ some r)
      × (ltb_ℤ (pos 0) r.0 ≡ false)
      × Good r.2

pub record NoCommand (hooks : Hooks) (Good : Memory → Type 0) (ports : Ports) : Type 0 where
  pub no_vel : NoData hooks Good ports.cmd_vel
  pub no_twist : NoData hooks Good ports.cmd_twist
  pub no_cur : NoData hooks Good ports.cmd_cur

no_four : (z : ℤ) → ltb_ℤ (pos 0) z ≡ false → eq_ℤ z (pos 4) ≡ false
no_four z e = ground arith

-- The modes in which the base moves, and the one in which it does not.
abbrev pub Moving : ℕ → Type 0
Moving mode = (mode ≡ cmode_velocity) ⊎ (mode ≡ cmode_current)

-- What stays, and the mode after a reading.
abbrev Checked : {D S : Type 0} → Option Timespec → BaseInfo D S → BaseInfo D S → Type 0
Checked now base b =
    (b.wheel_inf ≡ base.wheel_inf)
    × (b.last_cmd ≡ base.last_cmd)
    × (ports_of b ≡ ports_of base)
    × (b.control_mode ≡ (if late base.last_cmd now then cmode_motorstop else base.control_mode))

check_watchdog-Checked :
    {D S : Type 0} (now : Option Timespec) (base : BaseInfo D S)
    → Checked now base (base_check_watchdog now false base)
unfolding base_check_watchdog late
check_watchdog-Checked none base = (refl, refl, refl, refl)
check_watchdog-Checked (some t) base =
    elim (Bool-cases (leb_ℤ (pos 2) (t.sec -ℤ base.last_cmd.sec))) [
      | inl e ↦ rw e (refl, refl, refl, refl)
      | inr e ↦ rw e (refl, refl, refl, refl)
    ]

module _ {D S : Type 0} (hooks : Hooks) (fl : Floats D S) (lay : Layout D) (Good : Memory → Type 0)
    (stack : List ℕ) where
  no_new_data-Checked :
      (now : Option Timespec) (base : BaseInfo D S)
      → all_stopped base.wheel_inf ≡ false
      → Checked now base (no_new_data hooks fl lay now base)
  unfolding no_new_data
  no_new_data-Checked now base moving = rw (no_new_data, moving) (check_watchdog-Checked now base)

  -- One switch, in a mode in which the base moves or in MOTORSTOP.
  abbrev Switched : Option Timespec → BaseInfo D S → Option (BaseInfo D S × Memory) → Type 0
  Switched now base r =
      (b : BaseInfo D S) × (m : Memory) × (r ≡ some (b, m)) × Good m × Checked now base b

  handle_twist-Switched :
      (now : Option Timespec) (base : BaseInfo D S) (m : Memory)
      → NoCommand hooks Good (ports_of base)
      → all_stopped base.wheel_inf ≡ false
      → Good m
      → Switched now base (handle_twist hooks fl lay now base m)
  unfolding handle_twist
  handle_twist-Switched now base m silent moving good =
      let (r, got, nothing, good') = silent.no_twist 1 (lay.twist_bytes base.cmd_twist) m good in
      let read = record base { cmd_twist = lay.twist_of r.1 } in
      (
        no_new_data hooks fl lay now read,
        r.2,
        rw (got, ◌>>=◌) (rw nothing refl),
        good',
        no_new_data-Checked now read moving,
      )

  handle_velocity-Switched :
      (now : Option Timespec) (base : BaseInfo D S) (m : Memory)
      → NoCommand hooks Good (ports_of base)
      → all_stopped base.wheel_inf ≡ false
      → Good m
      → Switched now base (handle_velocity hooks fl lay now stack base m)
  unfolding handle_velocity
  handle_velocity-Switched now base m silent moving good =
      let (r, got, nothing, good') = silent.no_vel 4 stack m good in
      let (b, m', run, good'', checked) = handle_twist-Switched now base r.2 silent moving good' in
      (b, m', rw (got, ◌>>=◌) (rw (no_four r.0 nothing) run), good'', checked)

  handle_current-Switched :
      (now : Option Timespec) (base : BaseInfo D S) (m : Memory)
      → NoCommand hooks Good (ports_of base)
      → all_stopped base.wheel_inf ≡ false
      → Good m
      → Switched now base (handle_current hooks fl lay now stack base m)
  unfolding handle_current
  handle_current-Switched now base m silent moving good =
      let (r, got, nothing, good') = silent.no_cur 4 stack m good in
      (
        no_new_data hooks fl lay now base,
        r.2,
        rw (got, ◌>>=◌) (rw (no_four r.0 nothing) refl),
        good',
        no_new_data-Checked now base moving,
      )

  handle_cm-Switched :
      (now : Option Timespec) (base : BaseInfo D S) (m : Memory)
      → NoCommand hooks Good (ports_of base)
      → all_stopped base.wheel_inf ≡ false
      → Good m
      → (base.control_mode ≡ cmode_motorstop) ⊎ Moving base.control_mode
      → Switched now base (handle_cm hooks fl lay now stack base m)
  unfolding handle_cm
  handle_cm-Switched now base m silent moving good (inl e) =
      let t : (base.control_mode == cmode_motorstop) ≡ true = ground arith in
      let same : base.control_mode
          ≡ (if late base.last_cmd now then cmode_motorstop else base.control_mode) =
        ground arith in
      (base, m, rw t refl, good, (refl, refl, refl, same))
  handle_cm-Switched now base m silent moving good (inr (inl e)) =
      let t : (base.control_mode == cmode_motorstop) ≡ false = ground arith in
      let u : (base.control_mode == cmode_velocity) ≡ true = ground arith in
      let (b, m', run, good', checked) = handle_velocity-Switched now base m silent moving good in
      (b, m', rw t (rw u run), good', checked)
  handle_cm-Switched now base m silent moving good (inr (inr e)) =
      let t : (base.control_mode == cmode_motorstop) ≡ false = ground arith in
      let u : (base.control_mode == cmode_velocity) ≡ false = ground arith in
      let v : (base.control_mode == cmode_current) ≡ true = ground arith in
      let (b, m', run, good', checked) = handle_current-Switched now base m silent moving good in
      (b, m', rw t (rw u (rw v run)), good', checked)

  stays_or_stops :
      (mode : ℕ) (x : Bool)
      → (mode ≡ cmode_motorstop) ⊎ Moving mode
      → ((if x then cmode_motorstop else mode) ≡ cmode_motorstop)
        ⊎ Moving (if x then cmode_motorstop else mode)
  stays_or_stops mode true h = inl refl
  stays_or_stops mode false h = h

  later :
      (mode : ℕ) (x y : Bool)
      → (if y then cmode_motorstop else (if x then cmode_motorstop else mode))
        ≡ (if x || y then cmode_motorstop else mode)
  later mode true true = refl
  later mode true false = refl
  later mode false true = refl
  later mode false false = refl

  -- Where a wheel has a command to move, the mode is VELOCITY, CURRENT or MOTORSTOP, and no port has
  -- a new command, the switches of any number of cycles return. The control mode after them is
  -- MOTORSTOP if one of the readings of the clock was two seconds or more past the last command, and
  -- as before if none was; the commanded values of the wheels and the time of the last command stay.
  pub switches_lem :
      (times : List (Option Timespec)) (base : BaseInfo D S) (m : Memory)
      → NoCommand hooks Good (ports_of base)
      → all_stopped base.wheel_inf ≡ false
      → Good m
      → (base.control_mode ≡ cmode_motorstop) ⊎ Moving base.control_mode
      → (b : BaseInfo D S) × (m' : Memory) × (switches hooks fl lay stack times base m
          ≡ some (b, m'))
        × (b.wheel_inf ≡ base.wheel_inf)
        × (b.last_cmd ≡ base.last_cmd)
        × (b.control_mode
            ≡ (if any_late base.last_cmd times then cmode_motorstop else base.control_mode))
  unfolding switches any_late
  switches_lem [] base m silent moving good h = (base, m, refl, refl, refl, refl)
  switches_lem (now ∷ times) base m silent moving good h =
      let (b, m1, run, good', checked) = handle_cm-Switched now base m silent moving good h in
      let (wheels, last, ports, mode) = checked in
      let h' =
        subst (λ q. (q ≡ cmode_motorstop) ⊎ Moving q) (sym mode)
          (stays_or_stops base.control_mode (late base.last_cmd now) h) in
      let (b', m', run', wheels', last', mode') =
        switches_lem times b m1 (subst (NoCommand hooks Good) (sym ports) silent)
          (ap all_stopped wheels ∙ moving) good' h' in
      (
        b',
        m',
        rw (run, ◌>>=◌) run',
        wheels' ∙ wheels,
        last' ∙ last,
        mode'
            ∙ rw (last, mode)
                (later base.control_mode (late base.last_cmd now) (any_late base.last_cmd times)),
      )
