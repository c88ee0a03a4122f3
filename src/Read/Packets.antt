-- ===== src/Read/Packets.antt =====
-- `FileInput::read_packet_` of sdk_client/stage_client_read.cpp: the next packet of a file or a TCP
-- connection, read into one of three buffers of the pool or into the angle table. Buffers and packets
-- are lists of bytes. `none` is a write behind the end of a buffer or an abort by `inno_log_verify`.
-- The CRC function of utils/utils.cpp is a parameter. The flag that an angle table is there is left
-- out.
pub mod Write
pub mod Fields
pub mod Framing
pub mod Whole
pub mod Inside
pub mod Memory
pub mod Tests
use ros2_perception.Read.Receive.{Event, Received, recv_full_buffer}
use ros2_perception.Prelude.{
  ℕ, ◌+◌, ◌-◌, ◌*◌, ◌/◌, ◌%◌, ◌^◌, Bool, true, false, not, ◌&&◌, ◌||◌, Option, none, some, List, [],
  ◌∷◌, ◌++◌, ◌==◌, ltb, leb, if◌then◌else◌, length, take, drop, get_or, le16, le32,
}

unfoldable pub magic_number : List ℕ → ℕ
magic_number bs = le16 bs 0

unfoldable pub major_version : List ℕ → ℕ
major_version bs = get_or bs 2 0

unfoldable pub size : List ℕ → ℕ
size bs = le32 bs 10

unfoldable pub item_type : List ℕ → ℕ
item_type bs = get_or bs 38 0

-- What a packet with the magic number of a data packet is read as, by its item type.
pub data Kind : Type 0 where
  points : Kind
  text : Kind
  angles : Kind
  other : Kind

abbrev pub is_one_of : ℕ → List ℕ → Bool
is_one_of t [] = false
is_one_of t (x ∷ xs) = t == x || is_one_of t xs

-- `CHECK_SPHERE_POINTCLOUD_DATA`, `CHECK_XYZ_POINTCLOUD_DATA` and `CHECK_ANGLEHV_TABLE_DATA`.
unfoldable pub kind_of : ℕ → Kind
kind_of t =
    if is_one_of t (1 ∷ 22 ∷ 7 ∷ 9 ∷ 13 ∷ 16 ∷ 25 ∷ 19 ∷ [])
      || is_one_of t (4 ∷ 21 ∷ 8 ∷ 10 ∷ 15 ∷ 24 ∷ 18 ∷ [])
    then points
    else if is_one_of t (2 ∷ 3 ∷ [])
    then text
    else if is_one_of t (101 ∷ 100 ∷ 103 ∷ 105 ∷ 104 ∷ [])
    then angles
    else other

-- What stands in the buffers; a buffer's capacity is its length.
pub record Buffers : Type 0 where
  pub data_packet : List ℕ
  pub message_packet : List ℕ
  pub status_packet : List ℕ
  pub anglehv_table : List ℕ

-- The result: 0, a negative number (written without its sign), or the size of the packet with the
-- buffer that holds it, as the 32 bits of the int.
pub data Outcome : Type 0 where
  at_end : Outcome
  corrupt : ℕ → Outcome
  took_data : ℕ → Outcome
  took_message : ℕ → Outcome
  took_status : ℕ → Outcome
  took_angles : ℕ → Outcome

pub record ReadPacket : Type 0 where
  pub outcome : Outcome
  pub buffers : Buffers
  pub rest : List Event

-- `memcpy` of `bs` to the offset `i`, where there is room.
abbrev pub write : ℕ → List ℕ → List ℕ → List ℕ
write i bs buf = take i buf ++ bs ++ drop (i + length bs) buf

-- `int to_read = size - sizeof(...)`, as the 32 bits of the int.
unfoldable pub to_read : ℕ → ℕ → ℕ
to_read n fixed = (n + 2 ^ 32 - fixed) % 2 ^ 32

unfoldable pub is_negative : ℕ → Bool
is_negative x = leb (2 ^ 31) x

-- The int as the `size_t` that `read_fd_` takes.
unfoldable pub size_t_of : ℕ → ℕ
size_t_of x = if is_negative x then x + 2 ^ 64 - 2 ^ 32 else x

pub record Filled : Type 0 where
  pub complete : Bool
  pub buffer : List ℕ
  pub rest : List Event

-- `read_fd_` of `n` bytes to the offset `i` of a buffer.
unfoldable pub read_fd_ : ℕ → ℕ → List ℕ → List Event → Option Filled
read_fd_ i n buf es =
    let r = recv_full_buffer n es in
    if leb (i + length r.buffer) (length buf)
    then some (record { complete = r.complete; buffer = write i r.buffer buf; rest = r.rest })
    else none

abbrev pub finished : Outcome → Buffers → List Event → Option ReadPacket
finished o b es = some (record { outcome = o; buffers = b; rest = es })

abbrev pub le32_bytes : ℕ → List ℕ
le32_bytes n = n % 256 ∷ n / 256 % 256 ∷ n / 65536 % 256 ∷ n / 16777216 % 256 ∷ []

-- `calculate_packet_crc32`, for a packet that lies in the buffer.
unfoldable pub crc_of : (List ℕ → ℕ) → List ℕ → ℕ
crc_of crc32 buf = crc32 (take 6 buf ++ take (size buf - 10) (drop 10 buf))

-- A status packet of version 1 gets the size and the version of the present one, and its checksum.
unfoldable pub adapt_status : (List ℕ → ℕ) → List ℕ → List ℕ
adapt_status crc32 buf =
    let new = write 2 (4 ∷ 0 ∷ []) (write 10 (le32_bytes 674) buf) in
    write 6 (le32_bytes (crc_of crc32 new)) new

unfoldable pub read_status : (List ℕ → ℕ) → List ℕ → Buffers → List Event → Option ReadPacket
read_status crc32 header b es =
    let n = size header in
    let x = to_read n 26 in
    elim (read_fd_ 26 (size_t_of x) (write 0 header b.status_packet) es) [
      | none ↦ none
      | some r ↦
          let read = record b { status_packet = r.buffer } in
          if not (r.complete || is_negative x)
          then finished (corrupt 1) read r.rest
          else if major_version header == 1 && n == 598
          then if le32 r.buffer 6 == crc_of crc32 r.buffer
            then finished (took_status 674)
                (record b { status_packet = adapt_status crc32 r.buffer }) r.rest
            else finished (corrupt 2) read r.rest
          else finished (took_status n) read r.rest
    ]

-- The rest of a packet of points or text, `dp` being what has been read of it. A header of version 1
-- is 16 bytes shorter and goes where its end is the end of the present header.
unfoldable pub read_items :
    (List ℕ → Buffers) → (ℕ → Outcome) → List ℕ → List ℕ → List Event → Option ReadPacket
read_items put took dp buf es =
    let n = size dp in
    if ltb (length buf) n
    then finished (corrupt 3) (put buf) es
    else let is_v1 = major_version dp == 1 in
      let x = to_read n (if is_v1 then 54 else 70) in
      let start = write 0 dp buf in
      elim (read_fd_ 70 (size_t_of x) (if is_v1 then write 16 dp start else start) es) [
        | none ↦ none
        | some r ↦
            finished (if not (r.complete || is_negative x) then corrupt 1 else took n)
              (put r.buffer) r.rest
      ]

unfoldable pub read_angles : List ℕ → Buffers → List Event → Option ReadPacket
read_angles dp b es =
    let x = to_read (size dp) 70 in
    elim (read_fd_ 70 (size_t_of x) (write 0 dp b.anglehv_table) es) [
      | none ↦ none
      | some r ↦
          finished
            (if not (r.complete || x == 2 ^ 32 - 1)
              then corrupt 1
              else took_angles ((x + 26) % 2 ^ 32))
            (record b { anglehv_table = r.buffer }) r.rest
    ]

unfoldable pub read_body : Kind → List ℕ → Buffers → List Event → Option ReadPacket
read_body points dp b es =
    read_items (λ buf. record b { data_packet = buf }) took_data dp b.data_packet es
read_body text dp b es =
    read_items (λ buf. record b { message_packet = buf }) took_message dp b.message_packet es
read_body angles dp b es = read_angles dp b es
read_body other dp b es = finished (corrupt 2) b es

unfoldable pub read_data : List ℕ → Buffers → List Event → Option ReadPacket
read_data header b es =
    let n = if major_version header == 1 then 28 else 44 in
    let r = recv_full_buffer n es in
    let dp = header ++ r.buffer in
    if not r.complete
    then finished (corrupt 1) b r.rest
    else if ltb (size header) 54
    then finished (corrupt 2) b r.rest
    else read_body (kind_of (item_type dp)) dp b r.rest

unfoldable pub read_header : (List ℕ → ℕ) → Buffers → List Event → Option ReadPacket
read_header crc32 b es =
    let r = recv_full_buffer 26 es in
    if not r.complete
    then finished at_end b r.rest
    else if magic_number r.buffer == 6251
    then read_status crc32 r.buffer b r.rest
    else if magic_number r.buffer == 5994
    then read_data r.buffer b r.rest
    else finished (corrupt 2) b r.rest

-- What `inno_log_verify` asks of the buffers.
unfoldable pub is_roomy : Buffers → Bool
is_roomy b =
    leb 70 (length b.data_packet)
    && leb 70 (length b.message_packet)
    && leb 674 (length b.status_packet)

unfoldable pub read_packet_ : (List ℕ → ℕ) → Buffers → List Event → Option ReadPacket
read_packet_ crc32 b es = if is_roomy b then read_header crc32 b es else none
