-- ===== src/Read/Udp/Owned.antt =====
-- What a datagram leaves of the buffer of `read_udp_` of sdk_client/stage_client_read.cpp.
use ros2_perception.Read.Udp.{
  Held, Receiver, Event, times_out, fails, arrives, max_read_size, Judged, judge, hand_over,
  take_datagram,
}
use ros2_perception.Read.Udp.Judge.{is_of, Ready, IsSound, judge-IsSound}
use ros2_perception.Read.Packets.{write, major_version}
use ros2_perception.Read.Packets.Write.{get_or-write_self}
use ros2_perception.Prelude.{
  Ensures, one, ℕ, ◌+◌, ◌≤◌, ◌≡◌, inl, inr, sym, ap, subst, ◌∙◌, Bool, true, false, ◌&&◌, Option,
  none, some, List, [], ◌∷◌, leb, if◌then◌else◌, if_elim, Option-cases, length, drop, get_or,
  get_or-drop, arith,
}
use ros2_perception.Read.Udp.Balance.{IsBalanced, hand_over-IsBalanced, hand_over-kept}

-- The buffer of the loop has its size.
abbrev pub IsWhole : Option Held → Type 0
IsWhole none = Unit {0}
IsWhole (some h) = length h.bytes ≡ max_read_size

-- What a round keeps: for every address, and the gap that the packets of the port ask for.
pub record IsOwned (v : Bool) (st : Receiver) : Type 0 where
  pub balanced : (b : ℕ) → IsBalanced b st
  pub ready : Ready v st.gap
  pub whole : IsWhole st.held

pub Ready-le : (v : Bool) (gap : ℕ) → Ready v gap → gap ≤ 16
Ready-le true gap (inl h) = omega arith
Ready-le true gap (inr h) = omega arith
Ready-le false gap h = omega arith

-- The version of what was received is that of the datagram.
pub received_version :
    (gap : ℕ) (bs buf : List ℕ)
    → gap + length bs ≤ length buf
    → 26 ≤ length bs
    → major_version (drop gap (write gap bs buf)) ≡ get_or bs 2 0
unfolding major_version
received_version gap bs buf room long =
    get_or-drop gap 2 (write gap bs buf) 0 ∙ get_or-write_self gap bs buf room 2 (omega arith)

-- A packet that was taken, or that leaves the buffer to the next.
pub settled :
    (v enable : Bool) (h : Held) (st : Receiver) (j : Judged)
    → IsOwned v (record st { held = some h })
    → IsSound v h.bytes j.adapted
    → IsOwned v (
        let next = record st {
          held = some (record { address = h.address; bytes = j.adapted.buffer });
          gap = j.adapted.gap;
          counters = j.counters;
        } in
        if j.adapted.accepted
        then hand_over enable
            (h.address + j.adapted.start)
            (drop j.adapted.start j.adapted.buffer)
            next
        else next)
settled v enable h st j ok (gap, inl (refused, same)) =
    rw refused
      (record { balanced = λ b. ok.balanced b; ready = gap; whole = ap length same ∙ ok.whole })
settled v enable h st j ok (gap, inr (accepted, front)) =
    let next : Receiver = record st {
      held = some (record { address = h.address; bytes = j.adapted.buffer });
      gap = j.adapted.gap;
      counters = j.counters;
    } in
    let hd = h.address + j.adapted.start in
    let p = drop j.adapted.start j.adapted.buffer in
    let e : hd ≡ h.address = omega (arith, front) in
    let (same, none_held) = hand_over-kept enable hd p next in
    rw accepted (record {
      balanced = λ b.
          hand_over-IsBalanced b enable hd p next
            (omega (arith, ok.balanced b, ap (λ a. one b a) e));
      ready = subst (λ g. Ready v g) (sym same) gap;
      whole = subst IsWhole (sym none_held) tt;
    })

-- Whether a datagram is of the version of the port.
abbrev pub is_from : Bool → Event → Bool
is_from v times_out = true
is_from v fails = true
is_from v (arrives source_ip_valid bs) = is_of v (get_or bs 2 0)

abbrev pub all_from : Bool → List Event → Bool
all_from v [] = true
all_from v (e ∷ es) = is_from v e && all_from v es

pub take_datagram-IsOwned :
    (crc32 : List ℕ → ℕ) (v enable : Bool) (n : ℕ) (h : Held) (st : Receiver)
    → IsOwned v (record st { held = some h })
    → (leb 26 n ≡ true → is_of v (major_version (drop st.gap h.bytes)) ≡ true)
    → Ensures
        (IsOwned v)
        (take_datagram crc32 enable n h.address h.bytes (record st { held = some h }))
unfolding take_datagram
take_datagram-IsOwned crc32 v enable n h st ok version =
    if_elim (Ensures (IsOwned v)) (leb 26 n)
      (λ long. elim (Option-cases (judge crc32 n st.gap h.bytes st.counters)) [
        | inl e ↦ rw e tt
        | inr (j, e) ↦
            let sound =
              judge-IsSound crc32 n st.gap h.bytes st.counters v ok.ready (version long) in
            let now : IsSound v h.bytes j.adapted =
              subst (Ensures (λ (j : Judged). IsSound v h.bytes j.adapted)) e sound in
            rw e (settled v enable h st j ok now)
      ])
      (λ _. ok)
