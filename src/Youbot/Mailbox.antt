-- ===== src/Youbot/Mailbox.antt =====
-- The mailbox of a motor controller (`send_mbx`, `set_param`). A message is its first eight bytes;
-- a reply is an array of bytes.
pub mod Device
use collision_avoidance.Base.{
  ℕ, zero, suc, ◌+◌, ◌-◌, ◌*◌, ◌/◌, ◌%◌, ◌^◌, Bool, true, false, not, ◌&&◌, List, [], ◌∷◌, ◌==◌,
  if◌then◌else◌,
}
use collision_avoidance.Base.Int.{ℤ, pos, negsuc, ltb_ℤ}
use collision_avoidance.Types.{ok, failed, is_ok}
use collision_avoidance.Time.{leb_ℤ}
use collision_avoidance.Comm.{to_u32}
use collision_avoidance.Boxed.{to_i32}

abbrev pub sap : ℕ
sap = 5

abbrev pub gap : ℕ
gap = 6

abbrev pub mbx_stat_ok : ℕ
mbx_stat_ok = 100

-- `(uint32) (*value >> k)`, stored to a byte.
abbrev pub byte_of : ℤ → ℕ → ℕ
byte_of value k = to_u32 value / 2 ^ k % 256

abbrev pub message : Bool → ℕ → ℕ → ℕ → ℤ → List ℕ
message gripper instr_nr param_nr bank_nr value =
    (if gripper then 1 else 0)
    ∷ instr_nr
    ∷ param_nr
    ∷ bank_nr
    ∷ byte_of value 24
    ∷ byte_of value 16
    ∷ byte_of value 8
    ∷ byte_of value 0
    ∷ []

-- The four bytes have no bits in common once they are shifted, so that `|` is the sum.
abbrev pub value_of : (ℕ → ℕ) → ℤ
value_of mbx =
    to_i32 (mbx 4 % 256 * 2 ^ 24 + mbx 5 % 256 * 2 ^ 16 + mbx 6 % 256 * 2 ^ 8 + mbx 7 % 256)

-- `ec_mbxsend` and `ec_mbxreceive` of the EtherCAT master, on the state of the bus.
pub record Master (Wire : Type 0) : Type 0 where
  pub mbxsend : ℕ → List ℕ → Wire → ℤ × Wire
  pub mbxreceive : ℕ → Wire → ℤ × (ℕ → ℕ) × Wire

abbrev pub eq_ℤ : ℤ → ℤ → Bool
eq_ℤ a b = not (ltb_ℤ a b) && not (ltb_ℤ b a)

module _ {Wire : Type 0} (master : Master Wire) where
  -- Returns 0 or -1, what `*value` is afterwards, and the bus.
  unfoldable pub send_mbx : Bool → ℕ → ℕ → ℕ → ℕ → ℤ → Wire → ℤ × ℤ × Wire
  send_mbx gripper instr_nr param_nr slave_nr bank_nr value w =
      let out = message gripper instr_nr param_nr bank_nr value in
      let sent = master.mbxsend slave_nr out w in
      if leb_ℤ sent.0 (pos 0)
      then (failed, value, sent.1)
      else (let got = master.mbxreceive slave_nr sent.1 in
          if leb_ℤ got.0 (pos 0)
          then (failed, value, got.2)
          else if got.1 2 % 256 == mbx_stat_ok
          then (ok, value_of got.1, got.2)
          else (failed, value_of got.1, got.2))

  -- `rdval` is the variable before it is read. The call that sets the parameter overwrites `val`.
  unfoldable pub set_param : ℕ → ℕ → ℤ → ℤ → Wire → ℤ × Wire
  unfolding send_mbx
  set_param slave_nr param_nr val rdval w =
      let first = send_mbx false gap param_nr (slave_nr % 2 ^ 16) 0 rdval w in
      if not (is_ok first.0)
      then (failed, first.2)
      else (let second = send_mbx false sap param_nr (slave_nr % 2 ^ 16) 0 val first.2 in
          if not (is_ok second.0)
          then (failed, second.2)
          else (let third = send_mbx false gap param_nr (slave_nr % 2 ^ 16) 0 first.1 second.2 in
              if not (is_ok third.0)
              then (failed, third.2)
              else if eq_ℤ third.1 second.1
              then (ok, third.2)
              else (failed, third.2)))
