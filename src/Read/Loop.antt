-- ===== src/Read/Loop.antt =====
-- `FileInput::keep_reading_` of sdk_client/stage_client_read.cpp: packet after packet is read into the
-- buffers of the pool and handed over, until the stream ends or `start_flag_` is found cleared. Which
-- buffer the pool gives at each call, what a fresh one holds, and what a check makes of a packet (`check_data_packet` and the adaptation of
-- version 1, which refuse it or say what is handed over), are
-- parameters. The counts that are only logged, and the waiting of the rate control, are left out.
pub mod Cases
pub mod Amount
pub mod Ends
pub mod Owned
pub mod Files
pub mod Delivers
mod Tests
use ros2_perception.Read.Packets.{
  Buffers, Outcome, at_end, corrupt, took_data, took_message, took_status, took_angles, ReadPacket,
  read_packet_,
}
use ros2_perception.Read.Receive.{Event}
use ros2_perception.Prelude.{
  ℕ, zero, suc, ◌+◌, ◌^◌, Bool, true, false, not, ◌-◌, ◌&&◌, Option, none, some, List, [], ◌∷◌,
  ◌++◌, ltb, ◌==◌, if◌then◌else◌, length,
}

-- A buffer of the pool: where it is, and what it holds.
pub record Held : Type 0 where
  pub address : ℕ
  pub bytes : List ℕ

-- The loop's pointers, `none` for NULL, with the table of the client, what has been handed over (in
-- the order of time), and the addresses of the buffers that came from the pool and that went back.
pub record Reader : Type 0 where
  pub data_packet : Option Held
  pub message_packet : Option Held
  pub status_packet : Option Held
  pub anglehv_table : List ℕ
  pub delivered : List Held
  pub allocated : List ℕ
  pub freed : List ℕ

-- Negative results are written without their sign; `stopped` is the result 0.
pub data Ended : Type 0 where
  stopped : Ended
  at_error : Ended
  at_file_end : Ended

pub data Round : Type 0 where
  goes_on : Reader → List Event → Round
  ends : Ended → Reader → Round

-- The result of the loop.
pub record Finished : Type 0 where
  pub reason : Ended
  pub reader : Reader

abbrev pub address_of : Option Held → List ℕ
address_of none = []
address_of (some h) = h.address ∷ []

abbrev pub owned : Reader → List ℕ
owned st = address_of st.data_packet ++ address_of st.message_packet ++ address_of st.status_packet

abbrev pub or_fresh : List ℕ → Option Held → List ℕ
or_fresh fresh none = fresh
or_fresh fresh (some h) = h.bytes

-- What the buffers of a round hold when it reads.
abbrev pub buffers_of : List ℕ → Reader → Buffers
buffers_of fresh st = record {
  data_packet = or_fresh fresh st.data_packet;
  message_packet = or_fresh fresh st.message_packet;
  status_packet = or_fresh fresh st.status_packet;
  anglehv_table = st.anglehv_table;
}

abbrev pub refilled : List ℕ → Option Held → Option Held
refilled bs none = none
refilled bs (some h) = some (record h { bytes = bs })

-- The buffers with what was read into them.
abbrev pub hold : Buffers → Reader → Reader
hold b st = record st {
  data_packet = refilled b.data_packet st.data_packet;
  message_packet = refilled b.message_packet st.message_packet;
  status_packet = refilled b.status_packet st.status_packet;
  anglehv_table = b.anglehv_table;
}

-- A pointer that is NULL gets a buffer, `pool n` at the call after `n` others.
abbrev pub or_alloc : (ℕ → ℕ) → List ℕ → Option Held → List ℕ → Held × List ℕ
or_alloc pool fresh none taken =
    let a = pool (length taken) in (record { address = a; bytes = fresh }, taken ++ (a ∷ []))
or_alloc pool fresh (some h) taken = (h, taken)

unfoldable pub alloc_missing : (ℕ → ℕ) → List ℕ → Reader → Reader
alloc_missing pool fresh st =
    let d = or_alloc pool fresh st.data_packet st.allocated in
    let m = or_alloc pool fresh st.message_packet d.1 in
    let s = or_alloc pool fresh st.status_packet m.1 in
    record st {
      data_packet = some d.0;
      message_packet = some m.0;
      status_packet = some s.0;
      allocated = s.1;
    }

-- What is handed over is no longer the loop's.
abbrev pub deliver_data : (List ℕ → ℕ → Option (List ℕ)) → ℕ → Reader → Reader
deliver_data check n st = elim st.data_packet [
  | none ↦ st
  | some h ↦ elim (check h.bytes n) [
    | none ↦ st
    | some packet ↦ record st {
      data_packet = none;
      delivered = st.delivered ++ (record h { bytes = packet } ∷ []);
    }
  ]
]

abbrev pub deliver_message : (List ℕ → ℕ → Option (List ℕ)) → ℕ → Reader → Reader
deliver_message check n st = elim st.message_packet [
  | none ↦ st
  | some h ↦ elim (check h.bytes n) [
    | none ↦ st
    | some packet ↦ record st {
      message_packet = none;
      delivered = st.delivered ++ (record h { bytes = packet } ∷ []);
    }
  ]
]

abbrev pub deliver_status : Reader → Reader
deliver_status st = elim st.status_packet [
  | none ↦ st
  | some h ↦ record st { status_packet = none; delivered = st.delivered ++ (h ∷ []) }
]

-- A result that is not positive ends the loop: of a file, 0 is its end.
abbrev pub end_of : Bool → ℕ → Ended
end_of is_tcp n = if n == 0 && not is_tcp then at_file_end else at_error

abbrev pub if_positive : Bool → ℕ → List Event → Reader → Reader → Round
if_positive is_tcp n es after st =
    if not (n == 0) && ltb n (2 ^ 31) then goes_on after es else ends (end_of is_tcp n) st

unfoldable pub take_packet :
    (List ℕ → ℕ → Option (List ℕ)) → Bool → Outcome → List Event → Reader → Round
take_packet check is_tcp at_end es st = ends (end_of is_tcp 0) st
take_packet check is_tcp (corrupt n) es st = ends at_error st
take_packet check is_tcp (took_data n) es st = if_positive is_tcp n es (deliver_data check n st) st
take_packet check is_tcp (took_message n) es st =
    if_positive is_tcp n es (deliver_message check n st) st
take_packet check is_tcp (took_status n) es st = if_positive is_tcp n es (deliver_status st) st
take_packet check is_tcp (took_angles n) es st = if_positive is_tcp n es st st

-- The buffers that are left go back to the pool.
unfoldable pub free_all : Reader → Reader
free_all st = record st {
  data_packet = none;
  message_packet = none;
  status_packet = none;
  freed = st.freed ++ owned st;
}

module _ (crc32 : List ℕ → ℕ) (check : List ℕ → ℕ → Option (List ℕ)) (pool : ℕ → ℕ) (fresh : List ℕ)
    (is_tcp : Bool) where
  unfoldable pub round : Reader → List Event → Option Round
  round st es = elim (read_packet_ crc32 (buffers_of fresh st) es) [
    | none ↦ none
    | some r ↦
        some
          (take_packet check is_tcp r.outcome r.rest (hold r.buffers (alloc_missing pool fresh st)))
  ]

  -- `start_flag_` is found cleared before the round after the next `k`.
  unfoldable pub keep_reading_ : ℕ → Reader → List Event → Option Finished
  keep_reading_ zero st es = some (record { reason = stopped; reader = free_all st })
  keep_reading_ (suc k) st es = elim (round st es) [
    | none ↦ none
    | some (goes_on next rest) ↦ keep_reading_ k next rest
    | some (ends reason last) ↦ some (record { reason = reason; reader = free_all last })
  ]
