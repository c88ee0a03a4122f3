-- ===== src/Read/Packets/Memory.antt =====
-- The writes of `read_packet_` of sdk_client/stage_client_read.cpp into its buffers: when they stay
-- inside, and a packet whose writes do not.
use ros2_perception.Read.Packets.{
  Buffers, Kind, points, text, angles, other, ReadPacket, magic_number, major_version, size,
  item_type, kind_of, write, to_read, size_t_of, read_status, read_body, read_data, read_header,
  is_roomy, read_packet_,
}
use ros2_perception.Read.Packets.Framing.{recv-whole, read_header-status, size_t_of-to_read}
use ros2_perception.Read.Packets.Write.{length-write}
use ros2_perception.Read.Packets.Fields.{
  magic_number-take, major_version-take, size-take, item_type-take,
}
use ros2_perception.Read.Packets.Inside.{
  recv-complete, read_fd_-behind, read_status-inside, read_items-inside, read_angles-inside,
}
use ros2_perception.Read.Receive.{Event, Received, recv_full_buffer, contents}
use ros2_perception.Prelude.{
  ℕ, ◌+◌, ◌-◌, ◌≤◌, ◌<◌, ◌≡◌, ◌≢◌, ◌^◌, refl, sym, ap, ◌∙◌, Bool, true, not, ◌&&◌, Option, none,
  List, ◌++◌, ◌==◌, ltb, leb, if◌then◌else◌, if_elim, Bool-cases, inl, inr, length, take,
  take-append, take-append_self, take-drop, length-take, length-append, arith,
}

-- The bounds that the sizes of packets have to keep: what the header of a status packet, or of a data
-- packet of a kind and a major version, may say for a buffer with `room` bytes.
unfoldable pub is_bounded_status : ℕ → ℕ → Bool
is_bounded_status n room = leb 26 n && leb n room

unfoldable pub is_bounded : Kind → ℕ → ℕ → Buffers → Bool
is_bounded points v n b = if v == 1 then leb (n + 16) (length b.data_packet) else leb 70 n
is_bounded text v n b = if v == 1 then leb (n + 16) (length b.message_packet) else leb 70 n
is_bounded angles v n b = leb 70 n && leb n (length b.anglehv_table)
is_bounded other v n b = true

-- Every capacity is an int.
unfoldable pub is_int_sized : Buffers → Bool
is_int_sized b =
    ltb (length b.data_packet) (2 ^ 31)
    && ltb (length b.message_packet) (2 ^ 31)
    && ltb (length b.status_packet) (2 ^ 31)
    && ltb (length b.anglehv_table) (2 ^ 31)

unfoldable pub is_bounded_data : Buffers → List ℕ → Bool
is_bounded_data b bs = is_bounded (kind_of (item_type bs)) (major_version bs) (size bs) b

unfoldable pub is_bounded_stream : Buffers → List ℕ → Bool
is_bounded_stream b bs =
    if magic_number bs == 6251
    then is_bounded_status (size bs) (length b.status_packet)
    else is_bounded_data b bs

-- What is read of a data packet before its items.
IsHeader : List ℕ → Type 0
IsHeader dp =
    (54 ≤ size dp)
    × (major_version dp ≡ 1 → length dp ≡ 54)
    × (major_version dp ≢ 1 → length dp ≡ 70)

read_body-inside :
    (k : Kind) (dp : List ℕ) (b : Buffers) (es : List Event)
    → is_roomy b ≡ true
    → is_int_sized b ≡ true
    → is_bounded k (major_version dp) (size dp) b ≡ true
    → IsHeader dp
    → read_body k dp b es ≢ none
unfolding read_body is_bounded is_roomy is_int_sized IsHeader
read_body-inside points dp b es r i k (low, old, new) =
    read_items-inside _ _ dp b.data_packet es (ground arith) (ground arith) low
      (λ v. (old v, ground arith)) (λ v. (new v, ground arith))
read_body-inside text dp b es r i k (low, old, new) =
    read_items-inside _ _ dp b.message_packet es (ground arith) (ground arith) low
      (λ v. (old v, ground arith)) (λ v. (new v, ground arith))
read_body-inside angles dp b es r i k (low, old, new) =
    let short : length dp ≤ 70 = elim (Bool-cases (major_version dp == 1)) [
      | inl v ↦ omega (arith, old (ground arith))
      | inr v ↦ omega (arith, new (ground arith))
    ] in
    read_angles-inside dp b es short (ground arith) (ground arith) (ground arith)
read_body-inside other dp b es r i k h = ground arith

header-take :
    (n : ℕ) (header bs : List ℕ)
    → length header ≡ 26
    → header ++ take n bs ≡ take (26 + n) (header ++ bs)
header-take n header bs l =
    let e : 26 + n - length header ≡ n = omega arith in
    rw (take-append header bs (26 + n) (omega arith), e) refl

header-front : (header bs : List ℕ) → length header ≡ 26 → take 26 (header ++ bs) ≡ header
header-front header bs l = rw (sym l) (take-append_self header bs)

-- The fields are those of the whole stream.
is_bounded_data-take :
    (n : ℕ) (b : Buffers) (bs : List ℕ)
    → 54 ≤ n
    → is_bounded_data b (take n bs) ≡ is_bounded_data b bs
unfolding is_bounded_data
is_bounded_data-take n b bs h =
    rw (item_type-take n bs h, major_version-take n bs (omega arith), size-take n bs (omega arith))
      refl

read_data-dp :
    (n : ℕ) (header : List ℕ) (b : Buffers) (es : List Event)
    → 28 ≤ n
    → length header ≡ 26
    → is_bounded_data b (header ++ contents es) ≡ true
    → 54 ≤ size header
    → (recv_full_buffer n es).complete ≡ true
    → (dp : List ℕ) × (header ++ (recv_full_buffer n es).buffer ≡ dp)
      × (is_bounded_data b dp ≡ true)
      × (54 ≤ size dp)
      × (length dp ≡ 26 + n)
      × (major_version dp ≡ major_version header)
read_data-dp n header b es big l k low done =
    let w = header ++ contents es in
    let (enough, got, next) = recv-complete n es done in
    let front = header-front header (contents es) l in
    let size_w = ap size front in
    (
      take (26 + n) w,
      ap (λ ys. header ++ ys) got ∙ header-take n header (contents es) l,
      is_bounded_data-take (26 + n) b w (omega arith) ∙ k,
      omega
          (arith, size-take (26 + n) w (omega arith), size-take 26 w (omega arith), ap size front),
      length-take (26 + n) w (omega (arith, length-append header (contents es))),
      major_version-take (26 + n) w (omega arith)
          ∙ sym (major_version-take 26 w (omega arith))
          ∙ ap major_version front,
    )

read_data-inside :
    (header : List ℕ) (b : Buffers) (es : List Event)
    → is_roomy b ≡ true
    → is_int_sized b ≡ true
    → length header ≡ 26
    → is_bounded_data b (header ++ contents es) ≡ true
    → read_data header b es ≢ none
unfolding read_data is_bounded_data IsHeader
read_data-inside header b es r i l k =
    let n : ℕ = if major_version header == 1 then 28 else 44 in
    let received : Received = recv_full_buffer n es in
    if_elim (λ (o : Option ReadPacket). o ≢ none) (not received.complete) (λ e. ground arith)
      (λ e.
        if_elim (λ (o : Option ReadPacket). o ≢ none) (ltb (size header) 54) (λ e'. ground arith)
          (λ e'.
            let (dp, eq, bounded, low, long, v) =
              read_data-dp n header b es (ground arith) l k (ground arith) (ground arith) in
            rw eq (
              read_body-inside (kind_of (item_type dp)) dp b received.rest r i bounded
                (low, λ old. ground arith, λ new. ground arith))))

-- If the stream's next packet keeps the bounds, `read_packet_` stays inside its buffers, whatever
-- else the stream has and wherever it ends.
pub read_packet_-inside :
    (crc32 : List ℕ → ℕ) (b : Buffers) (es : List Event)
    → is_roomy b ≡ true
    → is_int_sized b ≡ true
    → is_bounded_stream b (contents es) ≡ true
    → read_packet_ crc32 b es ≢ none
unfolding read_packet_ read_header is_bounded_stream is_bounded_status is_int_sized
read_packet_-inside crc32 b es r i k =
    let received = recv_full_buffer 26 es in
    rw r (
      if_elim (λ (o : Option ReadPacket). o ≢ none) (not received.complete) (λ e. ground arith)
        (λ e.
          let (enough, got, next) = recv-complete 26 es (ground arith) in
          let l : length received.buffer ≡ 26 =
            omega (arith, ap length got, length-take 26 (contents es) enough) in
          let m : magic_number received.buffer ≡ magic_number (contents es) =
            ap magic_number got ∙ magic_number-take 26 (contents es) (omega arith) in
          let n : size received.buffer ≡ size (contents es) =
            ap size got ∙ size-take 26 (contents es) (omega arith) in
          let w : received.buffer ++ contents received.rest ≡ contents es =
            rw (got, next) (take-drop 26 (contents es)) in
          if_elim (λ (o : Option ReadPacket). o ≢ none) (magic_number received.buffer == 6251)
            (λ e'.
              read_status-inside crc32 received.buffer b received.rest l (ground arith)
                (ground arith) (ground arith))
            (λ e'.
              if_elim (λ (o : Option ReadPacket). o ≢ none) (magic_number received.buffer == 5994)
                (λ e''.
                  read_data-inside received.buffer b received.rest r i l (rw w (ground arith)))
                (λ e''. ground arith))))

-- A status packet that is longer than its buffer, and that the stream has whole, is written behind
-- the buffer's end: the size that it states is not compared with the buffer's.
pub read_packet_-behind :
    (crc32 : List ℕ → ℕ) (header q rest : List ℕ) (b : Buffers) (es : List Event)
    → is_roomy b ≡ true
    → contents es ≡ header ++ (q ++ rest)
    → length header ≡ 26
    → magic_number header ≡ 6251
    → size header ≡ length header + length q
    → size header < 2 ^ 31
    → length b.status_packet < size header
    → read_packet_ crc32 b es ≡ none
unfolding read_packet_ read_status is_roomy
read_packet_-behind crc32 header q rest b es r h l m n small big =
    let (a, c, d) = recv-whole 26 header (q ++ rest) es l h in
    let start : length (write 0 header b.status_packet) ≡ length b.status_packet =
      length-write 0 header b.status_packet (ground arith) in
    let behind =
      read_fd_-behind 26 (size_t_of (to_read (size header) 26)) q rest
        (write 0 header b.status_packet) (recv_full_buffer 26 es).rest
        (omega (arith, size_t_of-to_read (size header) 26 (omega arith) small)) d
        (omega (arith, size_t_of-to_read (size header) 26 (omega arith) small)) in
    rw (r, read_header-status crc32 header (q ++ rest) b es l h m) (ground arith)
