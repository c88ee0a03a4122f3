-- ===== src/Deliver/Frames.antt =====
-- The frames that `StageClientDeliver` of sdk_client/stage_client_deliver.cpp makes of packets that come
-- in order.
use ros2_perception.Deliver.{
  Packet, XyzPacket, Call, xyz_packet_callback, xyz_frames, Client, Deliver, free_buffer_,
  max_xyz_data_packet_buf_size,
}
use ros2_perception.Deliver.Stage.{
  place, add_to_frame, end_frame, deliver_xyz_frame, count_frame, deliver_points, deliver_data,
  begin_job, process_job_,
}
use ros2_perception.Deliver.Convert.{grown, add_to_frame-fits}
use ros2_perception.Packet.Items.{size_of_data_packet}
use ros2_perception.Packet.Blocks.{is_sphere_pointcloud}
use ros2_perception.Prelude.{
  ℕ, ◌≤◌, ◌≡◌, ◌≢◌, refl, sym, ap, ◌∙◌, subst, Bool, true, false, Option, some, List, [], ◌∷◌, ◌++◌,
  ◌==◌, if_elim, add64, sub64, arith,
}

-- A client that asks for whole frames.
abbrev pub frame_client : Bool → Bool → Bool → Client
frame_client status message second = record {
  has_data_callback = true;
  has_status_callback = status;
  has_message_callback = message;
  force_xyz_pointcloud = false;
  callback_data_type = xyz_frames;
  enable_stage_client_deliver2 = second;
}

-- A packet of points, whole.
pub record IsPoints (pkt : Packet) : Type 0 where
  pub magic : pkt.magic_number ≡ 0x176A
  pub sized : size_of_data_packet ≤ pkt.size
  pub sphere : is_sphere_pointcloud pkt.item_type ≡ true

-- The frame that is being made, the calls so far and the buffers that were freed.
pub record At (st : Deliver) (last : ℕ) (x : XyzPacket) (cs : List Call) (fs : List ℕ)
    : Type 0 where
  pub last_frame : st.last_frame_idx ≡ last
  pub frame : st.xyz_data_packet ≡ x
  pub called : st.calls ≡ cs
  pub given_back : st.freed ≡ fs

abbrev pub whole : XyzPacket → XyzPacket
whole x = record x { is_last_sub_frame = true }

-- What the last packet of a frame makes of it, and of the calls.
abbrev pub kept : Bool → XyzPacket → XyzPacket
kept false x = x
kept true x = whole x

abbrev pub told : Bool → XyzPacket → List Call → List Call
told false x cs = cs
told true x cs = cs ++ (xyz_packet_callback (whole x) ∷ [])

place-At :
    (b : Bool) (st : Deliver) {last : ℕ} {x : XyzPacket} {cs : List Call} {fs : List ℕ}
    (g : XyzPacket)
    → At st last x cs fs
    → At (place b g st) last (kept b g) (told b g cs) fs
place-At false st g at = record {
  last_frame = at.last_frame;
  frame = refl;
  called = at.called;
  given_back = at.given_back;
}
place-At true st g at = record {
  last_frame = at.last_frame;
  frame = refl;
  called = ap (λ (c : List Call). c ++ (xyz_packet_callback (whole g) ∷ [])) at.called;
  given_back = at.given_back;
}

count_frame-At :
    (pkt : Packet) (st : Deliver) {last : ℕ} {x : XyzPacket} {cs : List Call} {fs : List ℕ}
    → At st last x cs fs
    → At (count_frame pkt st) last x cs fs
unfolding count_frame
count_frame-At pkt st {last} {x} {cs} {fs} at =
    if_elim (λ (z : Deliver). At z last x cs fs) pkt.header.is_last_sub_frame
      (λ _. record {
        last_frame = at.last_frame;
        frame = at.frame;
        called = at.called;
        given_back = at.given_back;
      })
      (λ _. at)

freed-At :
    (b : ℕ) (st : Deliver) {last : ℕ} {x : XyzPacket} {cs : List Call} {fs : List ℕ}
    → At st last x cs fs
    → At (free_buffer_ b st) last x cs (fs ++ (b ∷ []))
freed-At b st at = record {
  last_frame = at.last_frame;
  frame = at.frame;
  called = at.called;
  given_back = ap (λ (l : List ℕ). l ++ (b ∷ [])) at.given_back;
}

-- A packet of the frame that is being made, or the first of another.
append_lem :
    (points_of : Packet → List ℕ) (pkt : Packet) (st : Deliver)
    → pkt.header.idx ≡ st.last_frame_idx
    → deliver_xyz_frame points_of pkt st ≡ (add_to_frame points_of true pkt st, true)
unfolding deliver_xyz_frame
append_lem points_of pkt st same =
    let e : (pkt.header.idx == st.last_frame_idx) ≡ true = ground arith in rw e refl

start_lem :
    (points_of : Packet → List ℕ) (pkt : Packet) (st : Deliver)
    → pkt.header.idx ≢ st.last_frame_idx
    → sub64 st.last_frame_idx pkt.header.idx ≢ 1
    → st.xyz_data_packet.is_last_sub_frame ≡ true
    → deliver_xyz_frame points_of pkt st
      ≡ (add_to_frame points_of false pkt (record st { last_frame_idx = pkt.header.idx }), true)
unfolding deliver_xyz_frame end_frame
start_lem points_of pkt st new later done = ground arith

module _ (points_of : Packet → List ℕ) (alloc : Option ℕ) (now : ℕ)
    (status message second : Bool) where
  -- What is left of the stage once the start of a job is noted.
  abbrev started : Packet → Deliver → Deliver
  started pkt st = let b = begin_job now pkt st in record b { data_jobs = add64 b.data_jobs 1 }

  process_job_-points :
      (pkt : Packet) (st : Deliver)
      → IsPoints pkt
      → (deliver_xyz_frame points_of pkt (started pkt st)).1 ≡ true
      → process_job_ points_of alloc now (frame_client status message second) pkt true st
        ≡ some (
            free_buffer_ pkt.buffer
              (count_frame pkt (deliver_xyz_frame points_of pkt (started pkt st)).0))
  unfolding process_job_ deliver_data deliver_points
  process_job_-points pkt st is taken = ground arith

  started-At :
      (pkt : Packet) (st : Deliver) {last : ℕ} {x : XyzPacket} {cs : List Call} {fs : List ℕ}
      → At st last x cs fs
      → At (started pkt st) last x cs fs
  unfolding begin_job
  started-At pkt st at = record {
    last_frame = at.last_frame;
    frame = at.frame;
    called = at.called;
    given_back = at.given_back;
  }

  -- What a job of a frame leaves.
  abbrev pub After : Packet → XyzPacket → List Call → List ℕ → Option Deliver → Type 0
  After pkt g cs fs r =
      (z : Deliver) × (r ≡ some z)
      × At z pkt.header.idx (kept pkt.header.is_last_sub_frame g)
          (told pkt.header.is_last_sub_frame g cs) (fs ++ (pkt.buffer ∷ []))

  abbrev pub job : Packet → Deliver → Option Deliver
  job pkt st = process_job_ points_of alloc now (frame_client status message second) pkt true st

  placed :
      (pkt : Packet) (st mid : Deliver) (g : XyzPacket) {x : XyzPacket} {cs : List Call}
      {fs : List ℕ}
      → IsPoints pkt
      → deliver_xyz_frame points_of pkt (started pkt st)
        ≡ (place pkt.header.is_last_sub_frame g mid, true)
      → At mid pkt.header.idx x cs fs
      → After pkt g cs fs (job pkt st)
  placed pkt st mid g is e at =
      let done = place pkt.header.is_last_sub_frame g mid in
      (
        free_buffer_ pkt.buffer (count_frame pkt done),
        process_job_-points pkt st is (ap (λ (r : Deliver × Bool). r.1) e)
            ∙ ap (λ (r : Deliver × Bool). some (free_buffer_ pkt.buffer (count_frame pkt r.0))) e,
        freed-At pkt.buffer (count_frame pkt done)
            (count_frame-At pkt done (place-At pkt.header.is_last_sub_frame mid g at)),
      )

  pub job-append :
      (pkt : Packet) (st : Deliver) {x : XyzPacket} {cs : List Call} {fs : List ℕ}
      → IsPoints pkt
      → At st pkt.header.idx x cs fs
      → (grown points_of true pkt x).size ≤ max_xyz_data_packet_buf_size
      → After pkt (grown points_of true pkt x) cs fs (job pkt st)
  job-append pkt st {x} is at fits =
      let ready = started pkt st in
      let at' = started-At pkt st at in
      let same = ap (grown points_of true pkt) at'.frame in
      let e = append_lem points_of pkt ready (sym at'.last_frame) in
      let added =
        add_to_frame-fits points_of true pkt ready is.sphere
          (subst (λ (g : XyzPacket). g.size ≤ max_xyz_data_packet_buf_size) (sym same) fits) in
      placed pkt st ready (grown points_of true pkt x) is
        (e
          ∙ ap (λ (d : Deliver). (d, true))
              (added ∙ ap (λ (g : XyzPacket). place pkt.header.is_last_sub_frame g ready) same))
        at'

  pub job-start :
      (pkt : Packet) (st : Deliver) {last : ℕ} {x : XyzPacket} {cs : List Call} {fs : List ℕ}
      → IsPoints pkt
      → At st last x cs fs
      → pkt.header.idx ≢ last
      → sub64 last pkt.header.idx ≢ 1
      → x.is_last_sub_frame ≡ true
      → (grown points_of false pkt x).size ≤ max_xyz_data_packet_buf_size
      → After pkt (grown points_of false pkt x) cs fs (job pkt st)
  job-start pkt st {last} {x} is at new later done fits =
      let ready = started pkt st in
      let at' = started-At pkt st at in
      let mid : Deliver = record ready { last_frame_idx = pkt.header.idx } in
      let e =
        start_lem points_of pkt ready (λ q. new (q ∙ at'.last_frame))
          (λ q. later (ap (λ n. sub64 n pkt.header.idx) (sym at'.last_frame) ∙ q))
          (ap (λ (g : XyzPacket). g.is_last_sub_frame) at'.frame ∙ done) in
      let added = add_to_frame-fits points_of false pkt mid is.sphere fits in
      placed pkt st mid (grown points_of false pkt x) is (e ∙ ap (λ (d : Deliver). (d, true)) added)
        (record {
          last_frame = refl;
          frame = at'.frame;
          called = at'.called;
          given_back = at'.given_back;
        })
