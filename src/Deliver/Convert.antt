-- ===== src/Deliver/Convert.antt =====
-- Conversion with room for all points (sdk_common/inno_lidar_packet_utils.cpp), and what a packet adds
-- to a frame.
use ros2_perception.Deliver.{
  Packet, XyzPacket, Deliver, point_size, add_points, convert_to_xyz_pointcloud,
  max_xyz_data_packet_buf_size,
}
use ros2_perception.Deliver.Stage.{place, add_to_frame}
use ros2_perception.Packet.Items.{size_of_data_packet}
use ros2_perception.Packet.Blocks.{is_sphere_pointcloud}
use ros2_perception.Prelude.{
  ℕ, ◌+◌, ◌*◌, ◌<◌, ◌≤◌, ◌≡◌, ◌⊎◌, inl, refl, ap, ◌∙◌, Bool, true, false, List, [], ◌∷◌, ◌++◌, ltb,
  length, arith,
}
use mathlib.Core.List.{append-nil, append_assoc}

pub add_points_lem :
    (unit dest_size : ℕ) (xs : List ℕ) (required : ℕ) (done : List ℕ)
    → required + unit * length xs ≤ dest_size
    → add_points unit dest_size required done xs ≡ (true, required + unit * length xs, done ++ xs)
unfolding add_points
add_points_lem unit dest_size [] required done h =
    let e : required + unit * length {A = ℕ} [] ≡ required = grind arith in rw (e, append-nil) refl
add_points_lem unit dest_size (x ∷ xs) required done h =
    let e : required + unit * length (x ∷ xs) ≡ required + unit + unit * length xs = grind arith in
    let fits : ltb dest_size (required + unit) ≡ false = ground (arith, h, e) in
    rw (fits, e)
      (add_points_lem unit dest_size xs (required + unit) (done ++ (x ∷ [])) (omega (arith, h, e))
        ∙ ap (λ (l : List ℕ). (true, required + unit + unit * length xs, l))
            (append_assoc done (x ∷ []) xs))

add_points-over :
    (unit dest_size : ℕ) (xs : List ℕ) (required : ℕ) (done : List ℕ)
    → dest_size < required + unit * length xs
    → ltb dest_size required ≡ true ⊎ (add_points unit dest_size required done xs).0 ≡ false
unfolding add_points
add_points-over unit dest_size [] required done h =
    let e : required + unit * length {A = ℕ} [] ≡ required = grind arith in
    inl (ground (arith, h, e))
add_points-over unit dest_size (x ∷ xs) required done h =
    let e : required + unit * length (x ∷ xs) ≡ required + unit + unit * length xs = grind arith in
    let rest =
      add_points-over unit dest_size xs (required + unit) (done ++ (x ∷ []))
        (omega (arith, h, e)) in
    ground arith

module _ (points_of : Packet → List ℕ) where
  -- The bytes that the points of a packet take.
  abbrev pub need : Packet → ℕ
  need pkt = point_size pkt.item_type * length (points_of pkt)

  -- A frame with the points of a packet, or the start of one.
  abbrev pub grown : Bool → Packet → XyzPacket → XyzPacket
  grown true pkt x = record x { size = x.size + need pkt; points = x.points ++ points_of pkt }
  grown false pkt x = record {
    idx = pkt.header.idx;
    is_last_sub_frame = pkt.header.is_last_sub_frame;
    size = size_of_data_packet + need pkt;
    points = points_of pkt;
  }

  pub convert-fits :
      (dest_size : ℕ) (append : Bool) (pkt : Packet) (x : XyzPacket)
      → is_sphere_pointcloud pkt.item_type ≡ true
      → (grown append pkt x).size ≤ dest_size
      → convert_to_xyz_pointcloud pkt (points_of pkt) x dest_size append
        ≡ (true, grown append pkt x)
  unfolding convert_to_xyz_pointcloud
  convert-fits dest_size true pkt x sphere h =
      let r =
        add_points_lem (point_size pkt.item_type) dest_size (points_of pkt) x.size x.points h in
      let room : ltb dest_size x.size ≡ false = ground (arith, h) in rw (sphere, room, r) refl
  convert-fits dest_size false pkt x sphere h =
      let r =
        add_points_lem (point_size pkt.item_type) dest_size (points_of pkt) size_of_data_packet []
          h in
      let room : ltb dest_size size_of_data_packet ≡ false = ground (arith, h) in
      rw (sphere, room, r) refl

  pub convert-over :
      (dest_size : ℕ) (pkt : Packet) (x : XyzPacket)
      → dest_size < size_of_data_packet + need pkt
      → (convert_to_xyz_pointcloud pkt (points_of pkt) x dest_size false).0 ≡ false
  unfolding convert_to_xyz_pointcloud
  convert-over dest_size pkt x h =
      let over =
        add_points-over (point_size pkt.item_type) dest_size (points_of pkt) size_of_data_packet []
          h in
      ground arith

  pub add_to_frame-fits :
      (append : Bool) (pkt : Packet) (st : Deliver)
      → is_sphere_pointcloud pkt.item_type ≡ true
      → (grown append pkt st.xyz_data_packet).size ≤ max_xyz_data_packet_buf_size
      → add_to_frame points_of append pkt st
        ≡ place pkt.header.is_last_sub_frame (grown append pkt st.xyz_data_packet) st
  unfolding add_to_frame
  add_to_frame-fits append pkt st sphere h =
      ap (λ (r : Bool × XyzPacket). place pkt.header.is_last_sub_frame r.1 st)
        (convert-fits max_xyz_data_packet_buf_size append pkt st.xyz_data_packet sphere h)
