-- ===== src/Read/Loop/Amount.antt =====
-- How much of a connection a call of `read_packet_` of sdk_client/stage_client_read.cpp takes.
use ros2_perception.Read.Packets.{
  Buffers, Filled, Kind, points, text, angles, other, Outcome, at_end, ReadPacket, major_version,
  kind_of, item_type, size_t_of, to_read, write, size, read_fd_, read_status, read_items,
  read_angles, read_body, read_data, read_header, read_packet_,
}
use ros2_perception.Read.Receive.{
  Event, Received, contents, bytes, interrupted, failed, recv_full_buffer,
}
use ros2_perception.Read.Packets.Inside.{recv-complete}
use ros2_perception.Prelude.{
  ℕ, ◌+◌, ◌-◌, ◌≤◌, ◌≡◌, some, List, [], ◌∷◌, ◌++◌, ◌==◌, Option-cases, Bool-cases, ap, ◌⊎◌, inl,
  inr, if◌then◌else◌, length, length-append, length-take, length-drop, arith,
}

-- What a connection has left to give.
unfoldable pub amount : List Event → ℕ
amount [] = 0
amount (bytes c ∷ es) = length c + 1 + amount es
amount (interrupted ∷ es) = 1 + amount es
amount (failed ∷ es) = 1 + amount es

recv-amount :
    (es : List Event) (n : ℕ)
    → amount (recv_full_buffer n es).rest + length (recv_full_buffer n es).buffer ≤ amount es
unfolding recv_full_buffer amount
recv-amount [] n = ground arith
recv-amount (interrupted ∷ es) n = ground (arith, recv-amount es n)
recv-amount (failed ∷ es) n = ground arith
recv-amount (bytes c ∷ es) n = ground (
  arith,
  recv-amount es (n - length c),
  length-append c (recv_full_buffer (n - length c) es).buffer,
  length-drop n c,
  length-take n c,
)

-- A read of a buffer takes from the connection.
read_fd_-amount :
    (i n : ℕ) (buf : List ℕ) (es : List Event) (f : Filled)
    → read_fd_ i n buf es ≡ some f
    → amount f.rest ≤ amount es
unfolding read_fd_
read_fd_-amount i n buf es f h = ground (arith, recv-amount es n)

read_status-amount :
    (crc32 : List ℕ → ℕ) (header : List ℕ) (b : Buffers) (es : List Event) (r : ReadPacket)
    → read_status crc32 header b es ≡ some r
    → amount r.rest ≤ amount es
unfolding read_status
read_status-amount crc32 header b es r h =
    elim (Option-cases
      (read_fd_ 26 (size_t_of (to_read (size header) 26)) (write 0 header b.status_packet) es)) [
        | inl e ↦ ground arith
        | inr (f, e) ↦ ground (
          arith,
          read_fd_-amount 26 (size_t_of (to_read (size header) 26)) (write 0 header b.status_packet)
              es f,
        )
      ]

read_items-amount :
    (place : List ℕ → Buffers) (outcome : ℕ → Outcome) (dp buf : List ℕ) (es : List Event)
    (r : ReadPacket)
    → read_items place outcome dp buf es ≡ some r
    → amount r.rest ≤ amount es
unfolding read_items
read_items-amount place outcome dp buf es r h =
    let x : ℕ = to_read (size dp) (if major_version dp == 1 then 54 else 70) in
    let start : List ℕ =
      if major_version dp == 1 then write 16 dp (write 0 dp buf) else write 0 dp buf in
    elim (Option-cases (read_fd_ 70 (size_t_of x) start es)) [
      | inl e ↦ ground arith
      | inr (f, e) ↦ ground (arith, read_fd_-amount 70 (size_t_of x) start es f)
    ]

read_angles-amount :
    (dp : List ℕ) (b : Buffers) (es : List Event) (r : ReadPacket)
    → read_angles dp b es ≡ some r
    → amount r.rest ≤ amount es
unfolding read_angles
read_angles-amount dp b es r h =
    elim (Option-cases
      (read_fd_ 70 (size_t_of (to_read (size dp) 70)) (write 0 dp b.anglehv_table) es)) [
        | inl e ↦ ground arith
        | inr (f, e) ↦ ground (
          arith,
          read_fd_-amount 70 (size_t_of (to_read (size dp) 70)) (write 0 dp b.anglehv_table) es f,
        )
      ]

read_body-amount :
    (k : Kind) (dp : List ℕ) (b : Buffers) (es : List Event) (r : ReadPacket)
    → read_body k dp b es ≡ some r
    → amount r.rest ≤ amount es
unfolding read_body
read_body-amount points dp b es r h = read_items-amount _ _ dp b.data_packet es r h
read_body-amount text dp b es r h = read_items-amount _ _ dp b.message_packet es r h
read_body-amount angles dp b es r h = read_angles-amount dp b es r h
read_body-amount other dp b es r h = ground arith

read_data-amount :
    (header : List ℕ) (b : Buffers) (es : List Event) (r : ReadPacket)
    → read_data header b es ≡ some r
    → amount r.rest ≤ amount es
unfolding read_data
read_data-amount header b es r h =
    let n : ℕ = if major_version header == 1 then 28 else 44 in
    let dp : List ℕ = header ++ (recv_full_buffer n es).buffer in
    ground (
      arith,
      recv-amount es n,
      read_body-amount (kind_of (item_type dp)) dp b (recv_full_buffer n es).rest r,
    )

-- Unless it finds the end, a call of `read_packet_` takes at least a header from the connection.
pub read_packet_-amount :
    (crc32 : List ℕ → ℕ) (b : Buffers) (es : List Event) (r : ReadPacket)
    → read_packet_ crc32 b es ≡ some r
    → (r.outcome ≡ at_end) ⊎ (amount r.rest + 26 ≤ amount es)
unfolding read_packet_ read_header
read_packet_-amount crc32 b es r h =
    let received : Received = recv_full_buffer 26 es in
    elim (Bool-cases received.complete) [
      | inl e ↦
          let (enough, got, next) = recv-complete 26 es e in
          let l : length received.buffer ≡ 26 =
            omega (arith, ap length got, length-take 26 (contents es) enough) in
          inr (
            ground (
              arith,
              recv-amount es 26,
              read_status-amount crc32 received.buffer b received.rest r,
              read_data-amount received.buffer b received.rest r,
            ))
      | inr e ↦ ground arith
    ]
