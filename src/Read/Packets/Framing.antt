-- ===== src/Read/Packets/Framing.antt =====
-- The reads of `read_packet_` of sdk_client/stage_client_read.cpp where what it asks for is there.
use ros2_perception.Read.Packets.{
  Buffers, Filled, Outcome, took_status, ReadPacket, magic_number, major_version, size, write,
  to_read, is_negative, size_t_of, read_fd_, read_status, read_items, read_body, read_data, kind_of,
  item_type, read_header,
}
use ros2_perception.Read.Packets.Write.{take-write, length-write}
use ros2_perception.Read.Receive.{
  Event, whole, cut, recv_full_buffer, recv_full_buffer_lem, contents,
}
use ros2_perception.Prelude.{
  ℕ, ◌+◌, ◌-◌, ◌≤◌, ◌<◌, ◌≡◌, ◌≢◌, ◌^◌, refl, sym, ap, ◌∙◌, true, false, Option, some, List, ◌++◌,
  ◌==◌, length, take, length-append, take-append_self, drop-append_self, ltb, leb, arith,
}

-- A call that asks for as many bytes as `q` has, which come first, gets them.
pub recv-whole :
    (n : ℕ) (q rest : List ℕ) (es : List Event)
    → length q ≡ n
    → contents es ≡ q ++ rest
    → (recv_full_buffer n es).complete ≡ true
      × ((recv_full_buffer n es).buffer ≡ q)
      × (contents (recv_full_buffer n es).rest ≡ rest)
recv-whole n q rest es e h = elim (recv_full_buffer_lem es n) [
  | whole a b c d ↦
      (b, c ∙ rw (h, sym e) (take-append_self q rest), d ∙ rw (h, sym e) (drop-append_self q rest))
  | cut a b c ↦ absurd (omega (arith, ap length h, length-append q rest))
]

-- The result of a read that asks for the bytes `q`, which come first and fit.
read_fd_-whole :
    (i n : ℕ) (q rest buf : List ℕ) (es : List Event)
    → length q ≡ n
    → contents es ≡ q ++ rest
    → i + n ≤ length buf
    → (f : Filled) × (read_fd_ i n buf es ≡ some f)
      × (f.complete ≡ true)
      × (f.buffer ≡ write i q buf)
      × (contents f.rest ≡ rest)
unfolding read_fd_
read_fd_-whole i n q rest buf es e h fits =
    let r = recv_full_buffer n es in
    let (a, b, c) = recv-whole n q rest es e h in
    let ok : leb (i + length r.buffer) (length buf) ≡ true = rw (b, e) (ground arith) in
    rw ok (
      record { complete = r.complete; buffer = write i r.buffer buf; rest = r.rest },
      refl,
      a,
      ap (λ bs. write i bs buf) b,
      c,
    )

-- The packet `p` stands at the front of a buffer, which is the only one changed, and the stream goes
-- on with `rest`.
unfoldable pub Stored :
    (List ℕ → Buffers) → (ℕ → Outcome) → List ℕ → List ℕ → Option ReadPacket → Type 0
Stored put took p rest o =
    (buf : List ℕ) × (es : List Event) × (o
      ≡ some (record { outcome = took (length p); buffers = put buf; rest = es }))
    × (take (length p) buf ≡ p)
    × (contents es ≡ rest)

-- The part of a packet behind what has been read of it.
pub size_t_of-to_read : (n k : ℕ) → k ≤ n → n < 2 ^ 31 → size_t_of (to_read n k) ≡ n - k
unfolding size_t_of to_read is_negative
size_t_of-to_read n k h small = ground arith

read_status-done :
    (crc32 : List ℕ → ℕ) (header : List ℕ) (b : Buffers) (es : List Event) (f : Filled)
    → major_version header ≢ 1
    → read_fd_ 26 (size_t_of (to_read (size header) 26)) (write 0 header b.status_packet) es
      ≡ some f
    → f.complete ≡ true
    → read_status crc32 header b es
      ≡ some (record {
        outcome = took_status (size header);
        buffers = record b { status_packet = f.buffer };
        rest = f.rest;
      })
unfolding read_status
read_status-done crc32 header b es f v read done =
    let current : (major_version header == 1) ≡ false = ground arith in
    rw (read, read_status) (rw done (rw current refl))

read_items-done :
    (put : List ℕ → Buffers) (took : ℕ → Outcome) (dp buf : List ℕ) (es : List Event) (f : Filled)
    → size dp ≤ length buf
    → major_version dp ≢ 1
    → read_fd_ 70 (size_t_of (to_read (size dp) 70)) (write 0 dp buf) es ≡ some f
    → f.complete ≡ true
    → read_items put took dp buf es
      ≡ some (record { outcome = took (size dp); buffers = put f.buffer; rest = f.rest })
unfolding read_items
read_items-done put took dp buf es f fits v read done =
    let current : (major_version dp == 1) ≡ false = ground arith in
    let room : ltb (length buf) (size dp) ≡ false = ground arith in
    rw room (rw current (rw (read, read_items) (rw done refl)))

pub read_status-whole :
    (crc32 : List ℕ → ℕ) (header q rest : List ℕ) (b : Buffers) (es : List Event)
    → length header ≡ 26
    → size header ≡ length (header ++ q)
    → length (header ++ q) < 2 ^ 31
    → length (header ++ q) ≤ length b.status_packet
    → major_version header ≢ 1
    → contents es ≡ q ++ rest
    → Stored
        (λ buf. record b { status_packet = buf })
        took_status
        (header ++ q)
        rest
        (read_status crc32 header b es)
unfolding Stored
read_status-whole crc32 header q rest b es l e small fits v h =
    let behind = length-append header q in
    let asked : length q ≡ size_t_of (to_read (size header) 26) =
      omega (arith, size_t_of-to_read (size header) 26 (omega arith) (omega arith)) in
    let room : 26 + size_t_of (to_read (size header) 26) ≤ length (write 0 header b.status_packet) =
      omega (arith, length-write 0 header b.status_packet (omega arith)) in
    let start = write 0 header b.status_packet in
    let (f, read, done, eq, next) = read_fd_-whole 26 _ q rest start es asked h room in
    let step =
      read_status-done crc32 header b es f v read done
      ∙ ap
          (λ n. some (record {
            outcome = took_status n;
            buffers = record b { status_packet = f.buffer };
            rest = f.rest;
          }))
          e in
    (
      f.buffer,
      f.rest,
      step,
      rw (eq, sym l) (take-write header q b.status_packet (length (header ++ q)) refl),
      next,
    )

pub read_items-whole :
    (put : List ℕ → Buffers) (took : ℕ → Outcome) (dp q rest buf : List ℕ) (es : List Event)
    → length dp ≡ 70
    → size dp ≡ length (dp ++ q)
    → length (dp ++ q) < 2 ^ 31
    → length (dp ++ q) ≤ length buf
    → major_version dp ≢ 1
    → contents es ≡ q ++ rest
    → Stored put took (dp ++ q) rest (read_items put took dp buf es)
unfolding read_items Stored
read_items-whole put took dp q rest buf es l e small fits v h =
    let behind = length-append dp q in
    let asked : length q ≡ size_t_of (to_read (size dp) 70) =
      omega (arith, size_t_of-to_read (size dp) 70 (omega arith) (omega arith)) in
    let room : 70 + size_t_of (to_read (size dp) 70) ≤ length (write 0 dp buf) =
      omega (arith, length-write 0 dp buf (omega arith)) in
    let (f, read, done, eq, next) = read_fd_-whole 70 _ q rest (write 0 dp buf) es asked h room in
    let step =
      read_items-done put took dp buf es f (omega arith) v read done
      ∙ ap (λ n. some (record { outcome = took n; buffers = put f.buffer; rest = f.rest })) e in
    (f.buffer, f.rest, step, rw (eq, sym l) (take-write dp q buf (length (dp ++ q)) refl), next)

-- The header of a packet that comes first has been read.
pub read_header-status :
    (crc32 : List ℕ → ℕ) (header rest : List ℕ) (b : Buffers) (es : List Event)
    → length header ≡ 26
    → contents es ≡ header ++ rest
    → magic_number header ≡ 6251
    → read_header crc32 b es ≡ read_status crc32 header b (recv_full_buffer 26 es).rest
unfolding read_header
read_header-status crc32 header rest b es l h m =
    let (a, c, d) = recv-whole 26 header rest es l h in rw a (rw c (rw m refl))

pub read_header-data :
    (crc32 : List ℕ → ℕ) (header rest : List ℕ) (b : Buffers) (es : List Event)
    → length header ≡ 26
    → contents es ≡ header ++ rest
    → magic_number header ≡ 5994
    → read_header crc32 b es ≡ read_data header b (recv_full_buffer 26 es).rest
unfolding read_header
read_header-data crc32 header rest b es l h m =
    let (a, c, d) = recv-whole 26 header rest es l h in rw a (rw c (rw m refl))

-- The rest of the header of a data packet has been read.
pub read_data-body :
    (header more rest : List ℕ) (b : Buffers) (es : List Event)
    → length more ≡ 44
    → contents es ≡ more ++ rest
    → major_version header ≢ 1
    → 70 ≤ size header
    → read_data header b es
      ≡ read_body
          (kind_of (item_type (header ++ more)))
          (header ++ more)
          b
          (recv_full_buffer 44 es).rest
unfolding read_data
read_data-body header more rest b es l h v big =
    let current : (major_version header == 1) ≡ false = ground arith in
    let (a, c, d) = recv-whole 44 more rest es l h in
    let sized : ltb (size header) 54 ≡ false = ground arith in
    rw current (rw a (rw c (rw sized refl)))
