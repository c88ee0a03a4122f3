-- ===== src/Read/Packets/Inside.antt =====
-- The writes of the parts of `read_packet_` of sdk_client/stage_client_read.cpp into its buffers.
use ros2_perception.Read.Packets.{
  Buffers, Outcome, ReadPacket, major_version, size, write, to_read, size_t_of, read_fd_,
  read_status, read_items, read_angles,
}
use ros2_perception.Read.Packets.Framing.{recv-whole, size_t_of-to_read}
use ros2_perception.Read.Packets.Write.{length-write}
use ros2_perception.Read.Receive.{
  Event, whole, cut, recv_full_buffer, recv_full_buffer_lem, contents,
}
use ros2_perception.Prelude.{
  ℕ, ◌+◌, ◌≤◌, ◌<◌, ◌≡◌, ◌≢◌, ◌^◌, ap, ◌∙◌, true, Option, none, List, ◌++◌, ◌==◌, ltb, if_elim,
  Bool-cases, inl, inr, length, take, drop, length-take, arith,
}

recv-length : (n : ℕ) (es : List Event) → length (recv_full_buffer n es).buffer ≤ n
recv-length n es = elim (recv_full_buffer_lem es n) [
  | whole a b c d ↦ omega (arith, ap length c, length-take n (contents es) a)
  | cut a b c ↦ omega (arith, ap length c)
]

-- A call that returns the length asked for.
pub recv-complete :
    (n : ℕ) (es : List Event)
    → (recv_full_buffer n es).complete ≡ true
    → n ≤ length (contents es)
      × ((recv_full_buffer n es).buffer ≡ take n (contents es))
      × (contents (recv_full_buffer n es).rest ≡ drop n (contents es))
recv-complete n es h = elim (recv_full_buffer_lem es n) [
  | whole a b c d ↦ (a, c, d)
  | cut a b c ↦ cc
]

read_fd_-inside :
    (i n : ℕ) (buf : List ℕ) (es : List Event) → i + n ≤ length buf → read_fd_ i n buf es ≢ none
unfolding read_fd_
read_fd_-inside i n buf es h = ground (arith, recv-length n es)

pub read_fd_-behind :
    (i n : ℕ) (q rest buf : List ℕ) (es : List Event)
    → length q ≡ n
    → contents es ≡ q ++ rest
    → length buf < i + n
    → read_fd_ i n buf es ≡ none
unfolding read_fd_
read_fd_-behind i n q rest buf es e h far =
    let (a, b, c) = recv-whole n q rest es e h in ground (arith, ap length b)

pub read_status-inside :
    (crc32 : List ℕ → ℕ) (header : List ℕ) (b : Buffers) (es : List Event)
    → length header ≡ 26
    → 26 ≤ size header
    → size header ≤ length b.status_packet
    → length b.status_packet < 2 ^ 31
    → read_status crc32 header b es ≢ none
unfolding read_status
read_status-inside crc32 header b es l low high small =
    let inside =
      read_fd_-inside 26 (size_t_of (to_read (size header) 26)) (write 0 header b.status_packet) es
        (omega (
          arith,
          size_t_of-to_read (size header) 26 low (omega arith),
          length-write 0 header b.status_packet (omega arith),
        )) in
    ground arith

-- A header `dp` that is 16 bytes shorter goes 16 bytes further in.
pub read_items-inside :
    (place : List ℕ → Buffers) (outcome : ℕ → Outcome) (dp buf : List ℕ) (es : List Event)
    → length buf < 2 ^ 31
    → 70 ≤ length buf
    → 54 ≤ size dp
    → (major_version dp ≡ 1 → (length dp ≡ 54) × (size dp + 16 ≤ length buf))
    → (major_version dp ≢ 1 → (length dp ≡ 70) × (70 ≤ size dp))
    → read_items place outcome dp buf es ≢ none
unfolding read_items
read_items-inside place outcome dp buf es small room low old new =
    if_elim (λ (o : Option ReadPacket). o ≢ none) (ltb (length buf) (size dp)) (λ e. ground arith)
      (λ e. elim (Bool-cases (major_version dp == 1)) [
        | inl v ↦
            let (l, fits) = old (ground arith) in
            let start : length (write 0 dp buf) ≡ length buf =
              length-write 0 dp buf (omega arith) in
            let moved : length (write 16 dp (write 0 dp buf)) ≡ length buf =
              length-write 16 dp (write 0 dp buf) (omega arith) ∙ start in
            let inside =
              read_fd_-inside 70 (size_t_of (to_read (size dp) 54)) (write 16 dp (write 0 dp buf))
                es (omega (arith, size_t_of-to_read (size dp) 54 low (omega arith))) in
            rw v (ground arith)
        | inr v ↦
            let (l, fits) = new (ground arith) in
            let start : length (write 0 dp buf) ≡ length buf =
              length-write 0 dp buf (ground arith) in
            let inside =
              read_fd_-inside 70 (size_t_of (to_read (size dp) 70)) (write 0 dp buf) es
                (ground (arith, size_t_of-to_read (size dp) 70 fits (ground arith))) in
            rw v (ground arith)
      ])

pub read_angles-inside :
    (dp : List ℕ) (b : Buffers) (es : List Event)
    → length dp ≤ 70
    → 70 ≤ size dp
    → size dp ≤ length b.anglehv_table
    → length b.anglehv_table < 2 ^ 31
    → read_angles dp b es ≢ none
unfolding read_angles
read_angles-inside dp b es l low high small =
    let inside =
      read_fd_-inside 70 (size_t_of (to_read (size dp) 70)) (write 0 dp b.anglehv_table) es (
        omega (
          arith,
          size_t_of-to_read (size dp) 70 low (omega arith),
          length-write 0 dp b.anglehv_table (omega arith),
        )) in
    ground arith
