-- ===== src/Deliver/Kept.antt =====
-- The steps of `StageClientDeliver` of sdk_client/stage_client_deliver.cpp that neither take, free nor
-- give on a buffer.
use ros2_perception.Deliver.{Packet, XyzPacket, Client, Deliver}
use ros2_perception.Deliver.Stage.{
  place, end_frame, add_to_frame, deliver_xyz_frame, count_frame, deliver_message, deliver_status,
  begin_job,
}
use ros2_perception.Prelude.{
  ℕ, ◌≡◌, refl, ◌∙◌, Bool, true, false, List, ◌==◌, if_elim, sub64, arith,
}

-- The buffers are those of before.
pub record Same (st z : Deliver) : Type 0 where
  pub same_freed : z.freed ≡ st.freed
  pub same_passed : z.passed ≡ st.passed
  pub same_taken : z.taken ≡ st.taken

trans : {a b c : Deliver} → Same a b → Same b c → Same a c
trans p q = record {
  same_freed = q.same_freed ∙ p.same_freed;
  same_passed = q.same_passed ∙ p.same_passed;
  same_taken = q.same_taken ∙ p.same_taken;
}

pub begin_job-Same : (now : ℕ) (pkt : Packet) (st : Deliver) → Same st (begin_job now pkt st)
unfolding begin_job
begin_job-Same now pkt st = (record { same_freed = refl; same_passed = refl; same_taken = refl })

pub count_frame-Same : (pkt : Packet) (st : Deliver) → Same st (count_frame pkt st)
unfolding count_frame
count_frame-Same pkt st =
    if_elim (Same st) pkt.header.is_last_sub_frame
      (λ _. (record { same_freed = refl; same_passed = refl; same_taken = refl }))
      (λ _. (record { same_freed = refl; same_passed = refl; same_taken = refl }))

pub deliver_status-Same :
    (client : Client) (pkt : Packet) (st : Deliver) → Same st (deliver_status client pkt st)
unfolding deliver_status
deliver_status-Same client pkt st = record {
  same_freed = ground arith;
  same_passed = ground arith;
  same_taken = ground arith;
}

pub deliver_message-Same :
    (client : Client) (pkt : Packet) (st : Deliver) → Same st (deliver_message client pkt st)
unfolding deliver_message
deliver_message-Same client pkt st = record {
  same_freed = ground arith;
  same_passed = ground arith;
  same_taken = ground arith;
}

end_frame-Same : (pkt : Packet) (st : Deliver) → Same st (end_frame pkt st)
unfolding end_frame
end_frame-Same pkt st = record {
  same_freed = ground arith;
  same_passed = ground arith;
  same_taken = ground arith;
}

place-Same : (b : Bool) (x : XyzPacket) (st : Deliver) → Same st (place b x st)
place-Same true x st = (record { same_freed = refl; same_passed = refl; same_taken = refl })
place-Same false x st = (record { same_freed = refl; same_passed = refl; same_taken = refl })

add_to_frame-Same :
    (points_of : Packet → List ℕ) (append : Bool) (pkt : Packet) (st : Deliver)
    → Same st (add_to_frame points_of append pkt st)
unfolding add_to_frame
add_to_frame-Same points_of append pkt st = place-Same pkt.header.is_last_sub_frame _ st

pub deliver_xyz_frame-Same :
    (points_of : Packet → List ℕ) (pkt : Packet) (st : Deliver)
    → Same st (deliver_xyz_frame points_of pkt st).0
unfolding deliver_xyz_frame
deliver_xyz_frame-Same points_of pkt st =
    let ended = end_frame-Same pkt st in
    let next : Deliver = record (end_frame pkt st) { last_frame_idx = pkt.header.idx } in
    if_elim (λ (r : Deliver × Bool). Same st r.0) (pkt.header.idx == st.last_frame_idx)
      (λ _. add_to_frame-Same points_of true pkt st)
      (λ _.
        if_elim (λ (r : Deliver × Bool). Same st r.0) (sub64 st.last_frame_idx pkt.header.idx == 1)
          (λ _. ended)
          (λ _.
            trans
              (record {
                same_freed = ended.same_freed;
                same_passed = ended.same_passed;
                same_taken = ended.same_taken;
              })
              (add_to_frame-Same points_of false pkt next)))
