-- ===== src/Youbot/Start/Stopped.antt =====
-- What the start leaves of the motors, however the bus answers.
use collision_avoidance.Base.{◌%◌, ◌^◌, ◌≡◌, refl, false, List, [], ◌∷◌, map, Bool-cases, inl, inr}
use collision_avoidance.Base.Int.{ℤ}
use collision_avoidance.Types.{is_ok}
use collision_avoidance.Youbot.{MotorInfo}
use collision_avoidance.Youbot.Mailbox.{Master, send_mbx, gap}
use collision_avoidance.Youbot.Start.{without_command, limit_currents, arm_prepare_start}

-- A motor without its bound on the current.
unbounded : MotorInfo → MotorInfo
unbounded x = record x { max_cur = 0 }

limit_currents_lem :
    {Wire : Type 0}
    → (master : Master Wire) → (xs : List MotorInfo) → (dummy : ℤ) → (w : Wire)
    → map unbounded (limit_currents master xs dummy w).1 ≡ map unbounded xs
unfolding limit_currents unbounded
limit_currents_lem master [] dummy w = refl
limit_currents_lem master (x ∷ xs) dummy w =
    let r = send_mbx master false gap 6 (x.slave_idx % 2 ^ 16) 0 dummy w in
    elim (Bool-cases (is_ok r.0)) [
      | inl t ↦ rw (limit_currents, t) (rw (limit_currents_lem master xs r.1 r.2) refl)
      | inr t ↦ rw (limit_currents, t) refl
    ]

-- After arm_prepare_start no joint has a command, and nothing else of the joints has changed but
-- the bounds on the currents, also where a motor does not answer.
arm_prepare_start-without_command :
    {Wire : Type 0}
    → (master : Master Wire) → (xs : List MotorInfo) → (dummy : ℤ) → (w : Wire)
    → map unbounded (arm_prepare_start master xs dummy w).1 ≡ map unbounded (map without_command xs)
unfolding arm_prepare_start
arm_prepare_start-without_command master xs dummy w =
    let limited = limit_currents master (map without_command xs) dummy w in
    elim (Bool-cases limited.0) [
      | inl t ↦
          rw (arm_prepare_start, t) (limit_currents_lem master (map without_command xs) dummy w)
      | inr t ↦
          rw (arm_prepare_start, t) (limit_currents_lem master (map without_command xs) dummy w)
    ]
