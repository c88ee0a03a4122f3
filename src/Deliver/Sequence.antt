-- ===== src/Deliver/Sequence.antt =====
-- A stream of whole frames through `StageClientDeliver` of sdk_client/stage_client_deliver.cpp.
use ros2_perception.Deliver.{
  Packet, XyzPacket, Call, xyz_packet_callback, Deliver, max_xyz_data_packet_buf_size,
}
use ros2_perception.Deliver.Stage.{process_all}
use ros2_perception.Deliver.Convert.{need, grown}
use ros2_perception.Deliver.Frames.{
  frame_client, IsPoints, At, whole, kept, told, After, job, job-append, job-start,
}
use ros2_perception.Packet.Items.{size_of_data_packet}
use ros2_perception.Prelude.{
  ℕ, ◌+◌, ◌≤◌, ◌≡◌, ◌≢◌, refl, sym, ap, ◌∙◌, subst, Bool, true, false, Option, some, Option-cases,
  inl, inr, List, [], ◌∷◌, ◌++◌, map, sub64, arith,
}
use mathlib.Core.List.{append-nil, append_assoc}

-- The packets of one frame, in order: only the last one is marked.
abbrev pub IsFrame : ℕ → List Packet → Type 0
IsFrame i [] = ⊥
IsFrame i (p ∷ []) = IsPoints p × (p.header.idx ≡ i) × (p.header.is_last_sub_frame ≡ true)
IsFrame i (p ∷ (q ∷ ps)) =
    IsPoints p × (p.header.idx ≡ i) × (p.header.is_last_sub_frame ≡ false) × IsFrame i (q ∷ ps)

abbrev pub buffers : List Packet → List ℕ
buffers ps = map (λ (p : Packet). p.buffer) ps

abbrev pub needs : (Packet → List ℕ) → List Packet → ℕ
needs points_of [] = 0
needs points_of (p ∷ ps) = need points_of p + needs points_of ps

abbrev pub all_points : (Packet → List ℕ) → List Packet → List ℕ
all_points points_of [] = []
all_points points_of (p ∷ ps) = points_of p ++ all_points points_of ps

-- The packet of a whole frame.
abbrev pub frame_of : (Packet → List ℕ) → ℕ → List Packet → XyzPacket
frame_of points_of i ps = record {
  idx = i;
  is_last_sub_frame = true;
  size = size_of_data_packet + needs points_of ps;
  points = all_points points_of ps;
}

-- A frame that is being made, with the points of more packets.
abbrev extended : (Packet → List ℕ) → XyzPacket → List Packet → XyzPacket
extended points_of x ps = record {
  idx = x.idx;
  is_last_sub_frame = true;
  size = x.size + needs points_of ps;
  points = x.points ++ all_points points_of ps;
}

module _ (points_of : Packet → List ℕ) (alloc : Option ℕ) (now : ℕ)
    (status message second : Bool) where
  abbrev pub run : List Packet → Deliver → Option Deliver
  run ps st = process_all points_of alloc now (frame_client status message second) ps st

  run-cons :
      (p : Packet) (ps : List Packet) (st z : Deliver)
      → job points_of alloc now status message second p st ≡ some z
      → run (p ∷ ps) st ≡ run ps z
  unfolding process_all
  run-cons p ps st z e = rw (e, process_all) refl

  pub run-append :
      (ps qs : List Packet) (st z : Deliver) → run ps st ≡ some z → run (ps ++ qs) st ≡ run qs z
  unfolding process_all
  run-append [] qs st z e = ground arith
  run-append (p ∷ ps) qs st z e =
      elim (Option-cases (job points_of alloc now status message second p st)) [
        | inl bad ↦ cc (rw (bad, process_all) at e)
        | inr (y, good) ↦
            run-cons p (ps ++ qs) st y good
            ∙ run-append ps qs y z (sym (run-cons p ps st y good) ∙ e)
      ]

  -- What is left when a frame is over.
  abbrev pub Over : ℕ → XyzPacket → List Call → List ℕ → Option Deliver → Type 0
  Over i x cs fs r = (z : Deliver) × (r ≡ some z) × At z i x (cs ++ (xyz_packet_callback x ∷ [])) fs

  -- The end of a frame, and a packet before it.
  ends :
      (p : Packet) (g : XyzPacket) (cs : List Call) (fs : List ℕ) (st : Deliver) (i : ℕ)
      → p.header.idx ≡ i
      → p.header.is_last_sub_frame ≡ true
      → After points_of alloc now status message second p g cs fs
          (job points_of alloc now status message second p st)
      → Over i (whole g) cs (fs ++ (p.buffer ∷ [])) (run (p ∷ []) st)
  unfolding process_all
  ends p g cs fs st i same last (z, e, at) = (
    z,
    run-cons p [] st z e,
    subst
        (λ j. At z j (whole g) (cs ++ (xyz_packet_callback (whole g) ∷ [])) (fs ++ (p.buffer ∷ [])))
        same
        (subst (λ b. At z p.header.idx (kept b g) (told b g cs) (fs ++ (p.buffer ∷ []))) last at),
  )

  goes_on :
      (p : Packet) (ps : List Packet) (g y : XyzPacket) (cs : List Call) (fs : List ℕ)
      (st : Deliver) (i : ℕ)
      → p.header.idx ≡ i
      → p.header.is_last_sub_frame ≡ false
      → After points_of alloc now status message second p g cs fs
          (job points_of alloc now status message second p st)
      → ((z : Deliver)
          → At z i g cs (fs ++ (p.buffer ∷ []))
          → Over i y cs ((fs ++ (p.buffer ∷ [])) ++ buffers ps) (run ps z))
      → Over i y cs (fs ++ buffers (p ∷ ps)) (run (p ∷ ps) st)
  goes_on p ps g y cs fs st i same more (z, e, at) k =
      let at' =
        subst (λ j. At z j g cs (fs ++ (p.buffer ∷ []))) same
          (subst (λ b. At z p.header.idx (kept b g) (told b g cs) (fs ++ (p.buffer ∷ []))) more
            at) in
      let (w, e', over) = k z at' in
      (
        w,
        run-cons p ps st z e ∙ e',
        subst (λ l. At w i y (cs ++ (xyz_packet_callback y ∷ [])) l)
            (append_assoc fs (p.buffer ∷ []) (buffers ps)) over,
      )

  extended-one :
      (p : Packet) (x : XyzPacket)
      → whole (grown points_of true p x) ≡ extended points_of x (p ∷ [])
  extended-one p x =
      let bytes : x.size + need points_of p ≡ x.size + (need points_of p + 0) = omega arith in
      let all = ap (λ l. x.points ++ l) (sym (append-nil (points_of p))) in
      λ i. record { idx = x.idx; is_last_sub_frame = true; size = bytes i; points = all i }

  extended-more :
      (p : Packet) (ps : List Packet) (x : XyzPacket)
      → extended points_of (grown points_of true p x) ps ≡ extended points_of x (p ∷ ps)
  extended-more p ps x =
      let bytes : x.size + need points_of p + needs points_of ps
          ≡ x.size + (need points_of p + needs points_of ps) =
        omega arith in
      let all = append_assoc x.points (points_of p) (all_points points_of ps) in
      λ i. record { idx = x.idx; is_last_sub_frame = true; size = bytes i; points = all i }

  rest_lem :
      (ps : List Packet) (st : Deliver) (i : ℕ) (x : XyzPacket) (cs : List Call) (fs : List ℕ)
      → IsFrame i ps
      → At st i x cs fs
      → x.size + needs points_of ps ≤ max_xyz_data_packet_buf_size
      → Over i (extended points_of x ps) cs (fs ++ buffers ps) (run ps st)
  rest_lem [] st i x cs fs h at fits = elim h [ ]
  rest_lem (p ∷ []) st i x cs fs (is, same, last) at fits =
      subst (λ y. Over i y cs (fs ++ (p.buffer ∷ [])) (run (p ∷ []) st)) (extended-one p x)
        (ends p (grown points_of true p x) cs fs st i same last (
          job-append points_of alloc now status message second p st is
            (subst (λ j. At st j x cs fs) (sym same) at) (omega (arith, fits))))
  rest_lem (p ∷ (q ∷ ps)) st i x cs fs (is, same, more, frame) at fits =
      subst (λ y. Over i y cs (fs ++ buffers (p ∷ (q ∷ ps))) (run (p ∷ (q ∷ ps)) st))
        (extended-more p (q ∷ ps) x)
        (goes_on p (q ∷ ps) (grown points_of true p x)
          (extended points_of (grown points_of true p x) (q ∷ ps)) cs fs st i same more
          (job-append points_of alloc now status message second p st is
            (subst (λ j. At st j x cs fs) (sym same) at) (omega (arith, fits)))
          (λ z at'.
            rest_lem (q ∷ ps) z i (grown points_of true p x) cs (fs ++ (p.buffer ∷ [])) frame at'
              (omega (arith, fits))))

  started-one :
      (p : Packet) (x : XyzPacket) (i : ℕ)
      → p.header.idx ≡ i
      → whole (grown points_of false p x) ≡ frame_of points_of i (p ∷ [])
  started-one p x i same =
      let bytes : size_of_data_packet + need points_of p
          ≡ size_of_data_packet + (need points_of p + 0) =
        omega arith in
      let all = sym (append-nil (points_of p)) in
      λ k. record { idx = same k; is_last_sub_frame = true; size = bytes k; points = all k }

  started-more :
      (p : Packet) (ps : List Packet) (x : XyzPacket) (i : ℕ)
      → p.header.idx ≡ i
      → extended points_of (grown points_of false p x) ps ≡ frame_of points_of i (p ∷ ps)
  started-more p ps x i same =
      let bytes : size_of_data_packet + need points_of p + needs points_of ps
          ≡ size_of_data_packet + (need points_of p + needs points_of ps) =
        omega arith in
      λ k. record {
        idx = same k;
        is_last_sub_frame = true;
        size = bytes k;
        points = points_of p ++ all_points points_of ps;
      }

  pub frame_lem :
      (ps : List Packet) (st : Deliver) (i last : ℕ) (x : XyzPacket) (cs : List Call) (fs : List ℕ)
      → IsFrame i ps
      → At st last x cs fs
      → x.is_last_sub_frame ≡ true
      → i ≢ last
      → sub64 last i ≢ 1
      → size_of_data_packet + needs points_of ps ≤ max_xyz_data_packet_buf_size
      → Over i (frame_of points_of i ps) cs (fs ++ buffers ps) (run ps st)
  frame_lem [] st i last x cs fs h at done new later fits = elim h [ ]
  frame_lem (p ∷ []) st i last x cs fs (is, same, over) at done new later fits =
      subst (λ y. Over i y cs (fs ++ (p.buffer ∷ [])) (run (p ∷ []) st)) (started-one p x i same)
        (ends p (grown points_of false p x) cs fs st i same over (
          job-start points_of alloc now status message second p st is at (λ e. new (sym same ∙ e))
            (λ e. later (ap (sub64 last) (sym same) ∙ e)) done (omega (arith, fits))))
  frame_lem (p ∷ (q ∷ ps)) st i last x cs fs (is, same, more, frame) at done new later fits =
      subst (λ y. Over i y cs (fs ++ buffers (p ∷ (q ∷ ps))) (run (p ∷ (q ∷ ps)) st))
        (started-more p (q ∷ ps) x i same)
        (goes_on p (q ∷ ps) (grown points_of false p x)
          (extended points_of (grown points_of false p x) (q ∷ ps)) cs fs st i same more
          (job-start points_of alloc now status message second p st is at (λ e. new (sym same ∙ e))
            (λ e. later (ap (sub64 last) (sym same) ∙ e)) done (omega (arith, fits)))
          (λ z at'.
            rest_lem (q ∷ ps) z i (grown points_of false p x) cs (fs ++ (p.buffer ∷ [])) frame at'
              (omega (arith, fits))))
