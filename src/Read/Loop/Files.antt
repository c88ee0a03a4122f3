-- ===== src/Read/Loop/Files.antt =====
-- Files of whole packets, as `keep_reading_` of sdk_client/stage_client_read.cpp finds them.
use mathlib.Core.List.{map-append}
use ros2_perception.Read.Loop.{Held, Reader, or_fresh}
use ros2_perception.Read.Packets.{Buffers, at_end, size, is_roomy, read_header, read_packet_}
use ros2_perception.Read.Packets.Fields.{size-take}
use ros2_perception.Read.Packets.Whole.{Slot, IsPacket}
use ros2_perception.Read.Receive.{
  Event, whole, cut, contents, recv_full_buffer, recv_full_buffer_lem,
}
use ros2_perception.Prelude.{
  ℕ, ◌≤◌, ◌≡◌, refl, sym, ap, ◌∙◌, true, Option, some, List, [], ◌∷◌, ◌++◌, length, take, map,
  arith,
}

-- A buffer's packet, by the size in its header.
unfoldable pub front : List ℕ → List ℕ
front buf = take (size buf) buf

pub front-packet :
    (p buf : List ℕ) → size p ≡ length p → 26 ≤ length p → take (length p) buf ≡ p → front buf ≡ p
unfolding front
front-packet p buf sized long h =
    let e : size buf ≡ length p = sym (size-take (length p) buf long) ∙ ap size h ∙ sized in rw e h

-- The packets in buffers that were handed over.
abbrev pub fronts : List Held → List (List ℕ)
fronts hs = map (λ (h : Held). front h.bytes) hs

pub fronts-append : (xs ys : List Held) → fronts (xs ++ ys) ≡ fronts xs ++ fronts ys
fronts-append xs ys = map-append (λ (h : Held). front h.bytes) xs ys

pub read_packet_-end :
    (crc32 : List ℕ → ℕ) (b : Buffers) (es : List Event)
    → is_roomy b ≡ true
    → contents es ≡ []
    → (rest : List Event) × (read_packet_ crc32 b es
        ≡ some (record { outcome = at_end; buffers = b; rest = rest }))
unfolding read_packet_ read_header
read_packet_-end crc32 b es r h = elim (recv_full_buffer_lem es 26) [
  | whole x y z w ↦ absurd (omega (arith, ap length h))
  | cut x y z ↦ ((recv_full_buffer 26 es).rest, rw r (rw y refl))
]

-- The loop's buffers are as long as those of the pool.
unfoldable pub IsReady : List ℕ → Reader → Type 0
IsReady fresh st =
    (length (or_fresh fresh st.data_packet) ≡ length fresh)
    × (length (or_fresh fresh st.message_packet) ≡ length fresh)
    × (length (or_fresh fresh st.status_packet) ≡ length fresh)

-- The checks hand a packet over as it is, whatever stands behind it in the buffer.
unfoldable pub IsAccepted : (List ℕ → ℕ → Option (List ℕ)) → List ℕ → Type 0
IsAccepted check p = (buf : List ℕ) → take (length p) buf ≡ p → check buf (length p) ≡ some buf

abbrev pub uniform : List ℕ → Buffers
uniform fresh = record {
  data_packet = fresh;
  message_packet = fresh;
  status_packet = fresh;
  anglehv_table = [];
}

abbrev pub packets : List (Slot × List ℕ) → List ℕ
packets [] = []
packets ((s, p) ∷ ps) = p ++ packets ps

unfoldable pub AreWhole : (List ℕ → ℕ → Option (List ℕ)) → List ℕ → List (Slot × List ℕ) → Type 0
AreWhole check fresh [] = Unit
AreWhole check fresh ((s, p) ∷ ps) =
    IsPacket p s (uniform fresh) × IsAccepted check p × AreWhole check fresh ps
