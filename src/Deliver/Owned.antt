-- ===== src/Deliver/Owned.antt =====
-- The buffers that `StageClientDeliver` of sdk_client/stage_client_deliver.cpp takes, frees and gives
-- to the second stage.
use ros2_perception.Deliver.{
  Packet, XyzPacket, Client, Deliver, is_text, is_ring_id_table, free_buffer_, pass_on,
  convert_to_xyz_pointcloud, max_xyz_data_packet_buf_size, max_inno_data_buffer_size,
}
use ros2_perception.Deliver.Stage.{
  Done, is_frames, is_packets, deliver_xyz_packet, deliver_xyz_frame, count_frame, finished,
  deliver_points, deliver_status, deliver_data, free_if_needed, begin_job, process_job_,
}
use ros2_perception.Deliver.Convert.{need, convert-fits}
use ros2_perception.Deliver.Kept.{
  Same, count_frame-Same, deliver_status-Same, deliver_message-Same, deliver_xyz_frame-Same,
}
use ros2_perception.Deliver.Runs.{process_job_-Runs}
use ros2_perception.Packet.Items.{size_of_data_packet}
use ros2_perception.Packet.Blocks.{is_sphere_pointcloud, is_xyz_pointcloud}
use ros2_perception.Prelude.{
  ℕ, ◌+◌, ◌≤◌, ◌≡◌, ap, subst, Bool, true, false, Bool-cases, not, ◌&&◌, ◌||◌, Option, none, some,
  Option-cases, inl, inr, List, [], ◌==◌, ltb, if_elim, add64, one, count, count-last, Ensures,
  Ensures-bind, arith,
}

-- The buffer of the job, `n` times, is what the stage freed or gave on more than it took.
abbrev Moved : ℕ → ℕ → Deliver → Deliver → Type 0
Moved b n st z =
    count b z.freed + count b z.passed + count b st.taken
    ≡ count b st.freed + count b st.passed + count b z.taken + n

Same-Moved : (b : ℕ) (st z : Deliver) → Same st z → Moved b 0 st z
Same-Moved b st z same =
    let f = ap (count b) same.same_freed in
    let p = ap (count b) same.same_passed in
    let t = ap (count b) same.same_taken in omega (arith, f, p, t)

freed-Moved : (b a : ℕ) (st z : Deliver) → Moved b 0 st z → Moved b (one b a) st (free_buffer_ a z)
freed-Moved b a st z h = omega (arith, h, count-last b a z.freed)

-- What is still to be freed of the buffer of a job.
abbrev left : ℕ → Packet → Bool → ℕ
left b pkt true = 0
left b pkt false = one b pkt.buffer

abbrev IsMoved : ℕ → Packet → Deliver → Done → Type 0
IsMoved b pkt st d = Moved b (left b pkt d.need_free_buffer) st d.stage

abbrev pub Fits : (Packet → List ℕ) → Client → Packet → Type 0
Fits points_of client pkt =
    client.enable_stage_client_deliver2 ≡ true
    → size_of_data_packet + need points_of pkt ≤ max_inno_data_buffer_size

deliver_xyz_packet-Moved :
    (b : ℕ) (points_of : Packet → List ℕ) (alloc : Option ℕ) (client : Client) (pkt : Packet)
    (st : Deliver)
    → is_sphere_pointcloud pkt.item_type ≡ true
    → Fits points_of client pkt
    → Ensures (Moved b 0 st) (deliver_xyz_packet points_of alloc client pkt st)
unfolding deliver_xyz_packet
deliver_xyz_packet-Moved b points_of alloc client pkt st sphere fits =
    if_elim (Ensures (Moved b 0 st)) client.enable_stage_client_deliver2
      (λ second. elim (Option-cases alloc) [
        | inl missing ↦ rw missing tt
        | inr (a, given) ↦
            let blank : XyzPacket = record {
              idx = 0;
              is_last_sub_frame = false;
              size = 0;
              points = [];
            } in
            let e =
              convert-fits points_of max_inno_data_buffer_size false pkt blank sphere
                (fits second) in
            rw (given, e) (omega (arith, count-last b a st.taken, count-last b a st.passed))
      ])
      (λ _.
        let r =
          convert_to_xyz_pointcloud pkt (points_of pkt) st.xyz_data_packet
            max_xyz_data_packet_buf_size false in
        if_elim (Moved b 0 st) r.0 (λ _. omega arith) (λ _. omega arith))

finished-Moved :
    (b : ℕ) (pkt : Packet) (need_free : Bool) (st z : Deliver)
    → Moved b (left b pkt need_free) st z
    → IsMoved b pkt st (finished pkt need_free z)
finished-Moved b pkt need_free st z h =
    let same = Same-Moved b z (count_frame pkt z) (count_frame-Same pkt z) in omega (arith, h, same)

deliver_points-IsMoved :
    (b : ℕ) (points_of : Packet → List ℕ) (alloc : Option ℕ) (client : Client) (pkt : Packet)
    (st : Deliver)
    → Fits points_of client pkt
    → Ensures (IsMoved b pkt st) (deliver_points points_of alloc client pkt st)
unfolding deliver_points
deliver_points-IsMoved b points_of alloc client pkt st0 fits =
    let st : Deliver = record st0 { data_jobs = add64 st0.data_jobs 1 } in
    let sphere = is_sphere_pointcloud pkt.item_type in
    let P = Ensures (IsMoved b pkt st0) in
    let frame = deliver_xyz_frame points_of pkt st in
    let moved = Same-Moved b st frame.0 (deliver_xyz_frame-Same points_of pkt st) in
    if_elim P (not client.has_data_callback) (λ _. finished-Moved b pkt true st0 st (omega arith))
      (λ _.
        if_elim P ((client.force_xyz_pointcloud || is_packets client.callback_data_type) && sphere)
          (λ packets.
            let is : sphere ≡ true = ground arith in
            Ensures-bind (Moved b 0 st) (IsMoved b pkt st0)
              (deliver_xyz_packet points_of alloc client pkt st) (λ z. some (finished pkt true z))
              (deliver_xyz_packet-Moved b points_of alloc client pkt st is fits)
              (λ z h. finished-Moved b pkt true st0 z h))
          (λ _.
            if_elim P (is_frames client.callback_data_type && sphere)
              (λ _.
                if_elim (IsMoved b pkt st0) frame.1
                  (λ _. finished-Moved b pkt true st0 frame.0 moved)
                  (λ _. freed-Moved b pkt.buffer st0 frame.0 moved))
              (λ _.
                if_elim P client.enable_stage_client_deliver2
                  (λ _.
                    finished-Moved b pkt false st0 (pass_on pkt.buffer st)
                      (omega (arith, count-last b pkt.buffer st.passed)))
                  (λ _. finished-Moved b pkt true st0 _ (omega arith)))))

deliver_data-IsMoved :
    (b : ℕ) (points_of : Packet → List ℕ) (alloc : Option ℕ) (client : Client) (pkt : Packet)
    (st : Deliver)
    → Fits points_of client pkt
    → Ensures (IsMoved b pkt st) (deliver_data points_of alloc client pkt st)
unfolding deliver_data
deliver_data-IsMoved b points_of alloc client pkt st fits =
    let P = Ensures (IsMoved b pkt st) in
    let told = Same-Moved b st _ (deliver_message-Same client pkt st) in
    if_elim P (ltb pkt.size size_of_data_packet) (λ _. omega arith)
      (λ _.
        if_elim P (is_sphere_pointcloud pkt.item_type || is_xyz_pointcloud pkt.item_type)
          (λ _. deliver_points-IsMoved b points_of alloc client pkt st fits)
          (λ _.
            if_elim (Moved b 0 st) (is_text pkt.item_type) (λ _. told)
              (λ _.
                if_elim (Moved b 0 st) (is_ring_id_table pkt.item_type) (λ _. omega arith)
                  (λ _. omega arith))))

free_if_needed-Moved :
    (b : ℕ) (pkt : Packet) (st : Deliver) (r : Option Done)
    → Ensures (IsMoved b pkt st) r
    → Ensures (Moved b (one b pkt.buffer) st) (free_if_needed pkt.buffer r)
free_if_needed-Moved b pkt st none h = tt
free_if_needed-Moved b pkt st (some d) h = elim (Bool-cases d.need_free_buffer) [
  | inl e ↦
      rw e
        (freed-Moved b pkt.buffer st d.stage (subst (λ n. Moved b (left b pkt n) st d.stage) e h))
  | inr e ↦ rw e (subst (λ n. Moved b (left b pkt n) st d.stage) e h)
]

process_job_-Moved :
    (b : ℕ) (points_of : Packet → List ℕ) (alloc : Option ℕ) (now : ℕ) (client : Client)
    (pkt : Packet) (prefer : Bool) (st : Deliver)
    → Fits points_of client pkt
    → Ensures
        (λ z.
          count b z.freed + count b z.passed + count b st.taken
          ≡ count b st.freed + count b st.passed + count b z.taken + one b pkt.buffer)
        (process_job_ points_of alloc now client pkt prefer st)
unfolding process_job_ begin_job
process_job_-Moved b points_of alloc now client pkt prefer st0 fits =
    let st = begin_job now pkt st0 in
    let P = Ensures (Moved b (one b pkt.buffer) st0) in
    let told = Same-Moved b st _ (deliver_status-Same client pkt st) in
    if_elim P (not prefer)
      (λ _.
        freed-Moved b pkt.buffer st0 (record st { dropped_jobs = add64 st.dropped_jobs 1 })
          (omega arith))
      (λ _.
        if_elim P (ltb pkt.size 26) (λ _. tt)
          (λ _.
            if_elim P (pkt.magic_number == 0x186B)
              (λ _. freed-Moved b pkt.buffer st0 (deliver_status client pkt st) told)
              (λ _.
                if_elim P (pkt.magic_number == 0x176A)
                  (λ _.
                    free_if_needed-Moved b pkt st0 _
                      (deliver_data-IsMoved b points_of alloc client pkt st fits))
                  (λ _. freed-Moved b pkt.buffer st0 st (omega arith)))))

-- A job that has a whole header, with a buffer that the pool can give: it is done, and for every
-- address, the stage has freed or given on as many buffers of it as it had to, which are those that it
-- took from the pool and the one of the job. Where the second stage is enabled, the points of the packet
-- are to fit into a buffer of the pool.
pub process_job_-balanced :
    (points_of : Packet → List ℕ) (a now : ℕ) (client : Client) (pkt : Packet) (prefer : Bool)
    (st : Deliver)
    → 26 ≤ pkt.size
    → Fits points_of client pkt
    → (z : Deliver) × (process_job_ points_of (some a) now client pkt prefer st ≡ some z)
      × ((b : ℕ)
          → count b z.freed + count b z.passed + count b st.taken
            ≡ count b st.freed + count b st.passed + count b z.taken + one b pkt.buffer)
process_job_-balanced points_of a now client pkt prefer st long fits =
    let (z, e) = process_job_-Runs points_of a now client pkt prefer st long in
    (
      z,
      e,
      λ b.
          subst (Ensures (Moved b (one b pkt.buffer) st)) e
            (process_job_-Moved b points_of (some a) now client pkt prefer st fits),
    )
