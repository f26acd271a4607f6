-- ===== src/Trigger.antt =====
-- The triggers (std_blocks/trig/trig.c, and std_blocks/ptrig/ptrig.c, whose `trigger_steps` is the
-- same code as `do_trigger`). The readings of the clock are arguments, and so is `encode`, the bytes
-- of a `struct trig_tstat`. `none` is a fault.
pub mod Schedule
pub mod Stats
use collision_avoidance.Base.{
  ℕ, zero, suc, Bool, true, false, Option, none, some, List, [], ◌∷◌, ◌==◌, if◌then◌else◌, ◌>>=◌,
}
use collision_avoidance.Base.Int.{ℤ, pos, negsuc}
use collision_avoidance.Types.{Memory, ok, failed, eoutofmem, is_ok, increment}
use collision_avoidance.Hooks.{Hooks}
use collision_avoidance.Lifecycle.{cblock_step}
use collision_avoidance.Time.{Timespec, ts_cmp, ts_add, ts_sub}
use collision_avoidance.Boxed.{write_boxed}

-- `struct trig_config`
pub record TrigConfig : Type 0 where
  pub b : Option ℕ
  pub num_steps : ℕ
  pub measure : ℕ

-- `struct trig_tstat`
pub record Tstat : Type 0 where
  pub min : Timespec
  pub max : Timespec
  pub total : Timespec
  pub cnt : ℕ

-- `struct trig_inf`; the list has its length.
pub record TrigInf : Type 0 where
  pub trig_list : List TrigConfig
  pub tstats : Tstat
  pub p_tstats : Option ℕ

abbrev pub first_tstats : Tstat
first_tstats = record {
  min = record { sec = pos 999_999_999; nsec = pos 999_999_999 };
  max = record { sec = pos 0; nsec = pos 0 };
  total = record { sec = pos 0; nsec = pos 0 };
  cnt = 0;
}

unfoldable pub trig_init : Bool → ℤ × Option TrigInf
trig_init true = (ok, some (record { trig_list = []; tstats = first_tstats; p_tstats = none }))
trig_init false = (eoutofmem, none)

-- The statistics with one more run, from a start to an end.
pub add_run : Tstat → Timespec → Timespec → Tstat
add_run s start stop =
    let dur = ts_sub stop start in
    record {
      min = elim (ts_cmp dur s.min) [ negsuc zero ↦ dur | _ ↦ s.min ];
      max = elim (ts_cmp dur s.max) [ pos (suc zero) ↦ dur | _ ↦ s.max ];
      total = ts_add s.total dur;
      cnt = increment s.cnt;
    }

module _ (hooks : Hooks) where
  -- The inner loop; `false` is the jump to `out`.
  pub step_times : Option ℕ → ℕ → Memory → Option (Bool × Memory)
  step_times b zero m = some (true, m)
  step_times b (suc n) m = do
    r ← cblock_step hooks b m
    elim (is_ok r.0) [ false ↦ some (false, r.1) | true ↦ step_times b n r.1 ]

  -- The outer loop.
  pub trigger_blocks : List TrigConfig → Memory → Option (Bool × Memory)
  unfolding step_times
  trigger_blocks [] m = some (true, m)
  trigger_blocks (c ∷ cs) m = do
    r ← step_times c.b c.num_steps m
    elim r.0 [ false ↦ some (false, r.1) | true ↦ trigger_blocks cs r.1 ]

  module _ (encode : Tstat → List ℕ) where
    pub do_trigger : Timespec → Timespec → TrigInf → Memory → Option (ℤ × TrigInf × Memory)
    unfolding trigger_blocks add_run
    do_trigger start stop inf m = do
      r ← trigger_blocks inf.trig_list m
      elim r.0 [
        | false ↦ some (failed, inf, r.1)
        | true ↦ do
          let stats = add_run inf.tstats start stop
          m' ← write_boxed hooks inf.p_tstats 1 (encode stats) r.1
          some (ok, record inf { tstats = stats }, m')
      ]

    -- A failure is only logged.
    unfoldable pub trig_step : Timespec → Timespec → TrigInf → Memory → Option (TrigInf × Memory)
    unfolding do_trigger
    trig_step start stop inf m = do r ← do_trigger start stop inf m; some (r.1, r.2)
