-- ===== src/Packet/Faults.antt =====
-- The fault bits of a status packet, by `check_status_packet_fault` and
-- `check_status_packet_fault_id` of sdk_common/inno_lidar_packet_utils.cpp.
use native.Mathlib.Nat.{zero-div}
use ros2_perception.Prelude.{
  ℕ, ◌-◌, ◌/◌, ◌%◌, ◌^◌, ◌<◌, ◌≡◌, refl, Bool, true, false, ◌||◌, ◌==◌, ltb, leb, if◌then◌else◌,
  dec_lt, arith,
}

-- `in_faults.faults`, `in_faults.extended_faults` and `ex_faults.faults`.
pub record Faults : Type 0 where
  pub faults : ℕ
  pub extended_faults : ℕ
  pub ex_faults : ℕ

unfoldable pub check_status_packet_fault : Faults → Bool
check_status_packet_fault s = ltb 0 s.faults || ltb 0 s.extended_faults || ltb 0 s.ex_faults

-- `x & (1U << k)`, as a Boolean.
abbrev pub bit : ℕ → ℕ → Bool
bit x k = x / 2 ^ k % 2 == 1

-- For ids that are not negative.
unfoldable pub check_status_packet_fault_id : Faults → ℕ → Bool
check_status_packet_fault_id s fid =
    if ltb fid 96
    then if leb 64 fid then bit s.extended_faults (fid - 64) else bit s.faults fid
    else if ltb fid 127
    then bit s.ex_faults (fid - 96)
    else false

bit-zero : (k : ℕ) → bit 0 k ≡ false
bit-zero k = rw (zero-div (2 ^ k)) refl

-- The bit of a number that has it is that of a number above 0.
positive : (x k : ℕ) → bit x k ≡ true → 0 < x
positive x k e = elim (dec_lt 0 x) [
  | yes lt ↦ lt
  | no ge ↦ let z : x ≡ 0 = omega (arith, ge) in cc (rw (z, bit-zero k) at e)
]

-- An id of a fault that is reported is below 127, and then the packet has a fault.
pub check_status_packet_fault_id_lem :
    (s : Faults) (fid : ℕ)
    → check_status_packet_fault_id s fid ≡ true
    → (fid < 127) × (check_status_packet_fault s ≡ true)
unfolding check_status_packet_fault_id check_status_packet_fault
check_status_packet_fault_id_lem s fid e = elim (dec_lt fid 64) [
  | yes low ↦ (omega (arith, low), ground (arith, positive s.faults fid (ground (arith, e, low))))
  | no high ↦ elim (dec_lt fid 96) [
    | yes middle ↦ (
      omega (arith, middle),
      ground (arith, positive s.extended_faults (fid - 64) (ground (arith, e, high, middle))),
    )
    | no top ↦ elim (dec_lt fid 127) [
      | yes inside ↦
          (inside, ground (arith, positive s.ex_faults (fid - 96) (ground (arith, e, top, inside))))
      | no outside ↦ ground (arith, e, top, outside)
    ]
  ]
]
