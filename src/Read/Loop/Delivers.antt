-- ===== src/Read/Loop/Delivers.antt =====
-- What `keep_reading_` of sdk_client/stage_client_read.cpp hands over of a file of whole packets.
use mathlib.Core.List.{append_assoc, append-nil}
use ros2_perception.Read.Loop.{
  Held, or_alloc, Reader, at_file_end, Round, goes_on, ends, Finished, buffers_of, alloc_missing,
  hold, if_positive, deliver_data, deliver_message, deliver_status, take_packet, round, free_all,
  keep_reading_,
}
use ros2_perception.Read.Packets.{is_roomy}
use ros2_perception.Read.Packets.Framing.{Stored}
use ros2_perception.Read.Packets.Whole.{
  Slot, data_slot, message_slot, status_slot, buffer_of, put, took, IsPacket, read_packet_-whole,
}
use ros2_perception.Read.Receive.{Event, contents}
use ros2_perception.Prelude.{
  ℕ, zero, suc, ◌^◌, ◌≤◌, ◌<◌, ◌≡◌, refl, sym, ap, ◌∙◌, true, false, Option, none, some, List, [],
  ◌∷◌, ◌++◌, length, take, map, arith,
}
use ros2_perception.Read.Loop.Files.{
  front, front-packet, fronts, fronts-append, read_packet_-end, IsReady, IsAccepted, uniform,
  packets, AreWhole,
}

module _ (crc32 : List ℕ → ℕ) (check : List ℕ → ℕ → Option (List ℕ)) (pool : ℕ → ℕ)
    (fresh : List ℕ) where
  -- The round hands the packet `p` over and the stream goes on with `rest`.
  Delivers : List ℕ → List ℕ → Reader → Option Round → Type 0
  Delivers p rest st o =
      (next : Reader) × (es : List Event) × (given : Held) × (o ≡ some (goes_on next es))
      × (contents es ≡ rest)
      × IsReady fresh next
      × (next.delivered ≡ st.delivered ++ (given ∷ []))
      × (front given.bytes ≡ p)

  IsPacket-uniform :
      (s : Slot) (p : List ℕ) (st : Reader)
      → IsReady fresh st
      → IsPacket p s (uniform fresh)
      → IsPacket p s (buffers_of fresh st)
  unfolding IsReady buffer_of
  IsPacket-uniform data_slot p st (a, b, c) i = record {
    slot = i.slot;
    sized = i.sized;
    long = i.long;
    small = i.small;
    fits = omega (arith, i.fits);
    current = i.current;
  }
  IsPacket-uniform message_slot p st (a, b, c) i = record {
    slot = i.slot;
    sized = i.sized;
    long = i.long;
    small = i.small;
    fits = omega (arith, i.fits);
    current = i.current;
  }
  IsPacket-uniform status_slot p st (a, b, c) i = record {
    slot = i.slot;
    sized = i.sized;
    long = i.long;
    small = i.small;
    fits = omega (arith, i.fits);
    current = i.current;
  }

  if_positive-goes :
      (n : ℕ) (es : List Event) (after st : Reader)
      → 70 ≤ n
      → n < 2 ^ 31
      → if_positive false n es after st ≡ goes_on after es
  if_positive-goes n es after st h h' = ground arith

  take_packet-Delivers :
      (s : Slot) (p rest buf : List ℕ) (st : Reader) (es : List Event)
      → IsReady fresh st
      → IsPacket p s (uniform fresh)
      → IsAccepted check p
      → take (length p) buf ≡ p
      → contents es ≡ rest
      → Delivers p rest st (
          some (
            take_packet check false
              (took s (length p))
              es
              (hold (put s (buffers_of fresh st) buf) (alloc_missing pool fresh st))))
  unfolding take_packet took put alloc_missing Delivers IsReady IsAccepted
  take_packet-Delivers data_slot p rest buf st es (x, y, z) i ok h h' =
      let held = hold (put data_slot (buffers_of fresh st) buf) (alloc_missing pool fresh st) in
      let given : Held = record {
        address = (or_alloc pool fresh st.data_packet st.allocated).0.address;
        bytes = buf;
      } in
      let next : Reader = record held {
        data_packet = none;
        delivered = st.delivered ++ (given ∷ []);
      } in
      let handed : deliver_data check (length p) held ≡ next = rw (ok buf h, deliver_data) refl in
      let step =
        if_positive-goes (length p) es (deliver_data check (length p) held) held i.long i.small in
      (
        next,
        es,
        given,
        ap some (step ∙ ap (λ r. goes_on r es) handed),
        h',
        (refl, y, z),
        refl,
        front-packet p buf i.sized (omega (arith, i.long)) h,
      )
  take_packet-Delivers message_slot p rest buf st es (x, y, z) i ok h h' =
      let held = hold (put message_slot (buffers_of fresh st) buf) (alloc_missing pool fresh st) in
      let given : Held = record {
        address =
            (or_alloc pool fresh st.message_packet
              (or_alloc pool fresh st.data_packet st.allocated).1).0.address;
        bytes = buf;
      } in
      let next : Reader = record held {
        message_packet = none;
        delivered = st.delivered ++ (given ∷ []);
      } in
      let handed : deliver_message check (length p) held ≡ next =
        rw (ok buf h, deliver_message) refl in
      let step =
        if_positive-goes (length p) es (deliver_message check (length p) held) held i.long
          i.small in
      (
        next,
        es,
        given,
        ap some (step ∙ ap (λ r. goes_on r es) handed),
        h',
        (x, refl, z),
        refl,
        front-packet p buf i.sized (omega (arith, i.long)) h,
      )
  take_packet-Delivers status_slot p rest buf st es (x, y, z) i ok h h' =
      let held = hold (put status_slot (buffers_of fresh st) buf) (alloc_missing pool fresh st) in
      let given : Held = record {
        address =
            (or_alloc pool fresh st.status_packet
              (or_alloc pool fresh st.message_packet
                (or_alloc pool fresh st.data_packet st.allocated).1).1).0.address;
        bytes = buf;
      } in
      let next : Reader = record held {
        status_packet = none;
        delivered = st.delivered ++ (given ∷ []);
      } in
      let handed : deliver_status held ≡ next = refl in
      let step = if_positive-goes (length p) es (deliver_status held) held i.long i.small in
      (
        next,
        es,
        given,
        ap some (step ∙ ap (λ r. goes_on r es) handed),
        h',
        (x, y, refl),
        refl,
        front-packet p buf i.sized (omega (arith, i.long)) h,
      )

  is_roomy-ready :
      (st : Reader) → 674 ≤ length fresh → IsReady fresh st → is_roomy (buffers_of fresh st) ≡ true
  unfolding is_roomy IsReady
  is_roomy-ready st room (x, y, z) = ground arith

  round-Delivers :
      (s : Slot) (p rest : List ℕ) (st : Reader) (es : List Event)
      → 674 ≤ length fresh
      → IsReady fresh st
      → IsPacket p s (uniform fresh)
      → IsAccepted check p
      → contents es ≡ p ++ rest
      → Delivers p rest st (round crc32 check pool fresh false st es)
  unfolding round Stored
  round-Delivers s p rest st es room ready i ok h =
      let (buf, es', eq, at_front, next) =
        read_packet_-whole s crc32 p rest (buffers_of fresh st) es (is_roomy-ready st room ready)
          (IsPacket-uniform s p st ready i) h in
      rw (eq, round) (take_packet-Delivers s p rest buf st es' ready i ok at_front next)

  -- A file that is at its end.
  round-end :
      (st : Reader) (es : List Event)
      → 674 ≤ length fresh
      → IsReady fresh st
      → contents es ≡ []
      → round crc32 check pool fresh false st es
        ≡ some (ends at_file_end (hold (buffers_of fresh st) (alloc_missing pool fresh st)))
  unfolding round take_packet
  round-end st es room ready h =
      let (rest, e) =
        read_packet_-end crc32 (buffers_of fresh st) es (is_roomy-ready st room ready) h in
      rw (e, round) refl

  -- A file of whole packets is read to its end, and what is handed over is those packets in their
  -- order.
  pub keep_reading_-delivers :
      (ps : List (Slot × List ℕ)) (k : ℕ) (st : Reader) (es : List Event)
      → 674 ≤ length fresh
      → IsReady fresh st
      → AreWhole check fresh ps
      → contents es ≡ packets ps
      → length ps < k
      → (f : Finished) × (keep_reading_ crc32 check pool fresh false k st es ≡ some f)
        × (f.reason ≡ at_file_end)
        × (fronts f.reader.delivered ≡ fronts st.delivered ++ map (λ x. x.1) ps)
  unfolding keep_reading_ AreWhole Delivers free_all alloc_missing
  keep_reading_-delivers ps zero st es room ready w h fuel = absurd (omega arith)
  keep_reading_-delivers [] (suc k) st es room ready w h fuel =
      let last = hold (buffers_of fresh st) (alloc_missing pool fresh st) in
      rw (round-end st es room ready h, keep_reading_)
        (
          record { reason = at_file_end; reader = free_all last },
          refl,
          refl,
          sym (append-nil (fronts st.delivered)),
        )
  keep_reading_-delivers ((s, p) ∷ ps) (suc k) st es room ready (i, ok, w) h fuel =
      let (next, es', buf, eq, after, ready', given, eq') =
        round-Delivers s p (packets ps) st es room ready i ok h in
      let (f, run, reason, all) =
        keep_reading_-delivers ps k next es' room ready' w after (omega arith) in
      let start : fronts next.delivered ≡ fronts st.delivered ++ (p ∷ []) =
        ap fronts given ∙ fronts-append st.delivered (buf ∷ []) ∙ rw eq' refl in
      rw (eq, keep_reading_)
        (
          f,
          run,
          reason,
          all ∙ rw start (append_assoc (fronts st.delivered) (p ∷ []) (map (λ x. x.1) ps)),
        )
