-- ===== src/Read/Packets/Whole.antt =====
-- What `read_packet_` of sdk_client/stage_client_read.cpp makes of a whole packet.
use ros2_perception.Read.Packets.{
  Buffers, Kind, points, text, angles, other, Outcome, took_data, took_message, took_status,
  magic_number, major_version, size, item_type, kind_of, read_status, read_items, read_body,
  read_header, is_roomy, read_packet_,
}
use ros2_perception.Read.Packets.Framing.{
  recv-whole, read_header-status, read_header-data, read_data-body, Stored, read_status-whole,
  read_items-whole,
}
use ros2_perception.Read.Packets.Fields.{
  magic_number-take, major_version-take, size-take, item_type-take,
}
use ros2_perception.Read.Receive.{Event, recv_full_buffer, contents}
use mathlib.Core.List.{append_assoc}
use ros2_perception.Prelude.{
  ℕ, ◌≤◌, ◌<◌, ◌≡◌, ◌≢◌, ◌^◌, sym, ap, subst, ◌⊎◌, inl, inr, ◌∙◌, true, Option, none, some, List,
  ◌++◌, ◌==◌, if◌then◌else◌, length, take, drop, take-drop, take-plus, drop-plus, length-take,
  length-drop, arith,
}

-- The buffer that a packet goes to.
pub data Slot : Type 0 where
  data_slot : Slot
  message_slot : Slot
  status_slot : Slot

abbrev pub slot_of_kind : Kind → Option Slot
slot_of_kind points = some data_slot
slot_of_kind text = some message_slot
slot_of_kind angles = none
slot_of_kind other = none

-- By the packet's magic number and item type.
unfoldable pub slot_of : List ℕ → Option Slot
slot_of p =
    if magic_number p == 6251
    then some status_slot
    else if magic_number p == 5994
    then slot_of_kind (kind_of (item_type p))
    else none

unfoldable pub buffer_of : Slot → Buffers → List ℕ
buffer_of data_slot b = b.data_packet
buffer_of message_slot b = b.message_packet
buffer_of status_slot b = b.status_packet

unfoldable pub put : Slot → Buffers → List ℕ → Buffers
put data_slot b buf = record b { data_packet = buf }
put message_slot b buf = record b { message_packet = buf }
put status_slot b buf = record b { status_packet = buf }

unfoldable pub took : Slot → ℕ → Outcome
took data_slot n = took_data n
took message_slot n = took_message n
took status_slot n = took_status n

-- A packet of the present version (that is, not of version 1) for the slot `s`, whose header tells its
-- size, and which fits into the slot's buffer.
pub record IsPacket (p : List ℕ) (s : Slot) (b : Buffers) : Type 0 where
  pub slot : slot_of p ≡ some s
  pub sized : size p ≡ length p
  pub long : 70 ≤ length p
  pub small : length p < 2 ^ 31
  pub fits : length p ≤ length (buffer_of s b)
  pub current : major_version p ≢ 1

split : (n : ℕ) (xs rest bs : List ℕ) → bs ≡ xs ++ rest → bs ≡ take n xs ++ (drop n xs ++ rest)
split n xs rest bs h =
    h ∙ ap (λ ys. ys ++ rest) (sym (take-drop n xs)) ∙ append_assoc (take n xs) (drop n xs) rest

read_header-status_slot :
    (crc32 : List ℕ → ℕ) (p rest : List ℕ) (b : Buffers) (es : List Event)
    → magic_number p ≡ 6251
    → IsPacket p status_slot b
    → contents es ≡ p ++ rest
    → Stored (put status_slot b) took_status p rest (read_header crc32 b es)
unfolding put buffer_of
read_header-status_slot crc32 p rest b es m i h =
    let e = split 26 p rest (contents es) h in
    let l = length-take 26 p (omega arith) in
    let magic : magic_number (take 26 p) ≡ 6251 = magic_number-take 26 p (omega arith) ∙ m in
    let (a, c, d) = recv-whole 26 (take 26 p) (drop 26 p ++ rest) es l e in
    let parts = take-drop 26 p in
    let whole : length (take 26 p ++ drop 26 p) ≡ length p = ap length parts in
    let stored =
      read_status-whole crc32 (take 26 p) (drop 26 p) rest b (recv_full_buffer 26 es).rest l
        (size-take 26 p (omega arith) ∙ i.sized ∙ sym whole) (omega arith) (omega arith)
        (λ v. i.current (sym (major_version-take 26 p (omega arith)) ∙ v)) d in
    rw (read_header-status crc32 (take 26 p) (drop 26 p ++ rest) b es l e magic) (
      subst
        (λ ys.
          Stored (put status_slot b) took_status ys rest
            (read_status crc32 (take 26 p) b (recv_full_buffer 26 es).rest))
        parts stored)

read_items-slot :
    (place : List ℕ → Buffers) (outcome : ℕ → Outcome) (p rest buf : List ℕ) (es : List Event)
    → 70 ≤ length p
    → length p < 2 ^ 31
    → size p ≡ length p
    → length p ≤ length buf
    → major_version p ≢ 1
    → contents es ≡ drop 70 p ++ rest
    → Stored place outcome p rest (read_items place outcome (take 70 p) buf es)
read_items-slot place outcome p rest buf es long small sized fits v h =
    let parts = take-drop 70 p in
    let whole : length (take 70 p ++ drop 70 p) ≡ length p = ap length parts in
    subst (λ ys. Stored place outcome ys rest (read_items place outcome (take 70 p) buf es)) parts
      (read_items-whole place outcome (take 70 p) (drop 70 p) rest buf es
        (length-take 70 p (omega arith)) (size-take 70 p (omega arith) ∙ sized ∙ sym whole)
        (omega arith) (omega arith) (λ e. v (sym (major_version-take 70 p (omega arith)) ∙ e)) h)

read_body-slot :
    (k : Kind) (s : Slot) (p rest : List ℕ) (b : Buffers) (es : List Event)
    → slot_of_kind k ≡ some s
    → IsPacket p s b
    → contents es ≡ drop 70 p ++ rest
    → Stored (put s b) (took s) p rest (read_body k (take 70 p) b es)
unfolding read_body took put buffer_of
read_body-slot points data_slot p rest b es e i h =
    read_items-slot _ took_data p rest b.data_packet es i.long i.small i.sized i.fits i.current h
read_body-slot text message_slot p rest b es e i h =
    read_items-slot _ took_message p rest b.message_packet es i.long i.small i.sized i.fits
      i.current h
read_body-slot _ _ p rest b es e i h = cc

slot_of-cases :
    (p : List ℕ) (s : Slot)
    → slot_of p ≡ some s
    → (magic_number p ≡ 6251) × (s ≡ status_slot)
      ⊎ (magic_number p ≡ 5994) × (slot_of_kind (kind_of (item_type p)) ≡ some s)
unfolding slot_of
slot_of-cases p s h = ground arith

read_header-data_slot :
    (s : Slot) (crc32 : List ℕ → ℕ) (p rest : List ℕ) (b : Buffers) (es : List Event)
    → magic_number p ≡ 5994
    → slot_of_kind (kind_of (item_type p)) ≡ some s
    → IsPacket p s b
    → contents es ≡ p ++ rest
    → Stored (put s b) (took s) p rest (read_header crc32 b es)
read_header-data_slot s crc32 p rest b es m k i h =
    let q = drop 26 p in
    let e = split 26 p rest (contents es) h in
    let l = length-take 26 p (omega (arith, i.long)) in
    let magic : magic_number (take 26 p) ≡ 5994 = magic_number-take 26 p (omega arith) ∙ m in
    let (a, c, d) = recv-whole 26 (take 26 p) (q ++ rest) es l e in
    let es1 = (recv_full_buffer 26 es).rest in
    let e1 = split 44 q rest (contents es1) d in
    let l1 = length-take 44 q (omega (arith, i.long, length-drop 26 p)) in
    let (a1, c1, d1) = recv-whole 44 (take 44 q) (drop 44 q ++ rest) es1 l1 e1 in
    let es2 = (recv_full_buffer 44 es1).rest in
    let front : take 26 p ++ take 44 q ≡ take 70 p = take-plus 26 44 p in
    let behind : contents es2 ≡ drop 70 p ++ rest =
      d1 ∙ ap (λ ys. ys ++ rest) (drop-plus 26 44 p) in
    rw
      (
        read_header-data crc32 (take 26 p) (q ++ rest) b es l e magic,
        read_data-body (take 26 p) (take 44 q) (drop 44 q ++ rest) b es1 l1 e1
            (λ v. i.current (sym (major_version-take 26 p (omega arith)) ∙ v))
            (omega (arith, size-take 26 p (omega arith), i.sized, i.long)),
        front,
        item_type-take 70 p (omega arith),
      )
      (read_body-slot (kind_of (item_type p)) s p rest b es2 k i behind)

-- A packet of the present version that comes first is read whole: it stands in the buffer of its
-- slot, the other buffers are as they were, and the stream goes on behind it.
pub read_packet_-whole :
    (s : Slot) (crc32 : List ℕ → ℕ) (p rest : List ℕ) (b : Buffers) (es : List Event)
    → is_roomy b ≡ true
    → IsPacket p s b
    → contents es ≡ p ++ rest
    → Stored (put s b) (took s) p rest (read_packet_ crc32 b es)
unfolding read_packet_ took
read_packet_-whole s crc32 p rest b es r i h = rw r (elim (slot_of-cases p s i.slot) [
  | inl (m, e) ↦
      subst (λ t. IsPacket p t b → Stored (put t b) (took t) p rest (read_header crc32 b es))
        (sym e) (λ j. read_header-status_slot crc32 p rest b es m j h) i
  | inr (m, k) ↦ read_header-data_slot s crc32 p rest b es m k i h
])
