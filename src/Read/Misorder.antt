-- ===== src/Read/Misorder.antt =====
-- `MisorderBufQueue`, `StageClientRead::add_deliver_packet_after_correct_`, `flush_cached_packet` and
-- `free_cached_packet` of sdk_client/stage_client_read: packets that came too early wait in a queue.
-- The repair of a negative timestamp (floating point) touches nothing else and is left out.
pub mod Queue
pub mod Ownership
pub mod Steps
pub mod Order
pub mod Bound
mod Tests
use ros2_perception.Prelude.{
  ℕ, ◌+◌, ◌-◌, ◌%◌, ◌^◌, Bool, true, false, ◌&&◌, ◌||◌, List, [], ◌∷◌, ◌++◌, ◌==◌, ltb, leb,
  if◌then◌else◌, length, add64, sub64,
}

-- `buffer` is the address of the packet.
pub record InnoDataPacket : Type 0 where
  pub buffer : ℕ
  pub idx : ℕ
  pub sub_idx : ℕ
  pub is_last_sub_frame : Bool

-- The queue in the order in which `top` and `pop` take from it. `first_step` is a field of the input.
pub record Misorder : Type 0 where
  pub queue : List InnoDataPacket
  pub expected_idx : ℕ
  pub expected_sub_idx : ℕ
  pub first_step : Bool

unfoldable pub new_misorder : Misorder
new_misorder = record {
  queue = [];
  expected_idx = 2 ^ 64 - 1;
  expected_sub_idx = 2 ^ 64 - 1;
  first_step = true;
}

-- `InnoDataPacketComparator`: whether `a` comes after `b`.
abbrev pub comes_after : InnoDataPacket → InnoDataPacket → Bool
comes_after a b = if a.idx == b.idx then ltb b.sub_idx a.sub_idx else ltb b.idx a.idx

-- Of equal packets the standard leaves the order open; here the older comes first.
abbrev pub push : List InnoDataPacket → InnoDataPacket → List InnoDataPacket
push [] p = p ∷ []
push (q ∷ qs) p = if comes_after q p then p ∷ (q ∷ qs) else q ∷ push qs p

-- `full`, with `max_q_len_` 10.
abbrev pub is_full : List InnoDataPacket → Bool
is_full q = ltb 10 (length q)

-- What a call does: the packets it delivers and those it frees, in order, and what it leaves.
pub record Corrected : Type 0 where
  pub delivered : List InnoDataPacket
  pub freed : List InnoDataPacket
  pub state : Misorder

abbrev pub is_expected : Misorder → InnoDataPacket → Bool
is_expected s p = (p.idx == s.expected_idx) && (p.sub_idx == s.expected_sub_idx)

unfoldable pub next_expected : Misorder → InnoDataPacket → Misorder
next_expected s p =
    if p.is_last_sub_frame
    then (record s { expected_idx = add64 p.idx 1; expected_sub_idx = 0 })
    else (record s { expected_idx = p.idx; expected_sub_idx = p.sub_idx + 1 })

-- The loop that delivers the packets of the queue while its top is the expected one.
unfoldable pub drain : Misorder → List InnoDataPacket → List InnoDataPacket × Misorder
drain s [] = ([], (record s { queue = [] }))
drain s (p ∷ ps) =
    let rest = drain (next_expected s p) ps in
    if is_expected s p then (p ∷ rest.0, rest.1) else ([], (record s { queue = p ∷ ps }))

-- Delivers a packet and what waited for it.
unfoldable pub deliver : Misorder → InnoDataPacket → Corrected
deliver s p =
    let rest = drain (next_expected s p) s.queue in
    record { delivered = p ∷ rest.0; freed = []; state = rest.1 }

-- `abs` of the difference of two `int64_t` is more than 10.
abbrev pub is_far : ℕ → ℕ → Bool
is_far a b = ltb 10 (sub64 a b) && ltb (sub64 a b) (2 ^ 64 - 10)

-- `free_cached_packet`, and the reset around it.
unfoldable pub reset : Misorder → InnoDataPacket → List InnoDataPacket × Misorder
reset s p =
    if s.first_step || is_far p.idx s.expected_idx
    then (s.queue, (record s { queue = []; first_step = true }))
    else ([], s)

-- A packet that is not expected: it waits if it comes later, and is freed otherwise.
unfoldable pub hold : Misorder → InnoDataPacket → List InnoDataPacket × Misorder
hold s p =
    if ((p.idx == s.expected_idx) && ltb s.expected_sub_idx p.sub_idx) || ltb s.expected_idx p.idx
    then ([], (record s { queue = push s.queue p }))
    else (p ∷ [], s)

-- The top of a full queue is delivered, expected or not.
unfoldable pub relieve : Misorder → List InnoDataPacket → Corrected
relieve s [] = record { delivered = []; freed = []; state = record s { queue = [] } }
relieve s (p ∷ ps) =
    if is_full (p ∷ ps)
    then deliver (record s { queue = ps }) p
    else (record { delivered = []; freed = []; state = record s { queue = p ∷ ps } })

unfoldable pub add_deliver_packet_after_correct : Misorder → InnoDataPacket → Corrected
add_deliver_packet_after_correct s0 p =
    let r = reset s0 p in
    let direct = deliver (record r.1 { first_step = false }) p in
    let held = hold r.1 p in
    let relieved = relieve held.1 held.1.queue in
    if r.1.first_step || is_expected r.1 p
    then (record direct { freed = r.0 })
    else (record relieved { freed = r.0 ++ held.0 })

-- `flush_cached_packet`: the queue is delivered as it is.
unfoldable pub flush_cached_packet : Misorder → Corrected
flush_cached_packet s = record { delivered = s.queue; freed = []; state = record s { queue = [] } }

unfoldable pub free_cached_packet : Misorder → Corrected
free_cached_packet s = record { delivered = []; freed = s.queue; state = record s { queue = [] } }

-- A stream of packets: all that is delivered and freed.
unfoldable pub correct_all : Misorder → List InnoDataPacket → Corrected
correct_all s [] = record { delivered = []; freed = []; state = s }
correct_all s (p ∷ ps) =
    let first = add_deliver_packet_after_correct s p in
    let rest = correct_all first.state ps in
    record {
      delivered = first.delivered ++ rest.delivered;
      freed = first.freed ++ rest.freed;
      state = rest.state;
    }
