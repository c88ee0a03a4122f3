-- ===== src/Deliver/Runs.antt =====
-- Jobs that do not end the program in `process_job_` of sdk_client/stage_client_deliver.cpp.
use ros2_perception.Deliver.{Packet, Client, Deliver}
use ros2_perception.Deliver.Stage.{
  Done, is_frames, is_packets, deliver_xyz_packet, deliver_points, deliver_data, begin_job,
  process_job_,
}
use ros2_perception.Packet.Items.{size_of_data_packet}
use ros2_perception.Packet.Blocks.{is_sphere_pointcloud, is_xyz_pointcloud}
use ros2_perception.Prelude.{
  refl, ℕ, ◌≤◌, ◌≡◌, Bool, not, ◌&&◌, ◌||◌, Option, some, List, ◌==◌, ltb, if_elim, add64, arith,
}

-- A step that does not end the program.
abbrev pub Runs : {A : Type 0} → Option A → Type 0
Runs {A} r = (a : A) × (r ≡ some a)

deliver_xyz_packet-Runs :
    (points_of : Packet → List ℕ) (a : ℕ) (client : Client) (pkt : Packet) (st : Deliver)
    → Runs (deliver_xyz_packet points_of (some a) client pkt st)
unfolding deliver_xyz_packet
deliver_xyz_packet-Runs points_of a client pkt st =
    if_elim (Runs {A = Deliver}) client.enable_stage_client_deliver2 (λ _. (_, refl))
      (λ _. (_, refl))

deliver_points-Runs :
    (points_of : Packet → List ℕ) (a : ℕ) (client : Client) (pkt : Packet) (st : Deliver)
    → Runs (deliver_points points_of (some a) client pkt st)
unfolding deliver_points
deliver_points-Runs points_of a client pkt st0 =
    let st : Deliver = record st0 { data_jobs = add64 st0.data_jobs 1 } in
    let (z, e) = deliver_xyz_packet-Runs points_of a client pkt st in
    let sphere = is_sphere_pointcloud pkt.item_type in
    if_elim (Runs {A = Done}) (not client.has_data_callback) (λ _. (_, refl))
      (λ _.
        if_elim (Runs {A = Done})
          ((client.force_xyz_pointcloud || is_packets client.callback_data_type) && sphere)
          (λ _. rw e (_, refl))
          (λ _.
            if_elim (Runs {A = Done}) (is_frames client.callback_data_type && sphere)
              (λ _. (_, refl))
              (λ _.
                if_elim (Runs {A = Done}) client.enable_stage_client_deliver2 (λ _. (_, refl))
                  (λ _. (_, refl)))))

deliver_data-Runs :
    (points_of : Packet → List ℕ) (a : ℕ) (client : Client) (pkt : Packet) (st : Deliver)
    → Runs (deliver_data points_of (some a) client pkt st)
unfolding deliver_data
deliver_data-Runs points_of a client pkt st =
    if_elim (Runs {A = Done}) (ltb pkt.size size_of_data_packet) (λ _. (_, refl))
      (λ _.
        if_elim (Runs {A = Done})
          (is_sphere_pointcloud pkt.item_type || is_xyz_pointcloud pkt.item_type)
          (λ _. deliver_points-Runs points_of a client pkt st) (λ _. (_, refl)))

pub process_job_-Runs :
    (points_of : Packet → List ℕ) (a now : ℕ) (client : Client) (pkt : Packet) (prefer : Bool)
    (st : Deliver)
    → 26 ≤ pkt.size
    → Runs (process_job_ points_of (some a) now client pkt prefer st)
unfolding process_job_
process_job_-Runs points_of a now client pkt prefer st long =
    let (d, e) = deliver_data-Runs points_of a client pkt (begin_job now pkt st) in
    if_elim (Runs {A = Deliver}) (not prefer) (λ _. (_, refl))
      (λ _.
        if_elim (Runs {A = Deliver}) (ltb pkt.size 26)
          (λ short. absurd (ground (arith, long, short)))
          (λ _.
            if_elim (Runs {A = Deliver}) (pkt.magic_number == 0x186B) (λ _. (_, refl))
              (λ _.
                if_elim (Runs {A = Deliver}) (pkt.magic_number == 0x176A) (λ _. rw e (_, refl))
                  (λ _. (_, refl)))))
