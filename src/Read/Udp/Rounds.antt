-- ===== src/Read/Udp/Rounds.antt =====
-- Each buffer that `read_udp_` of sdk_client/stage_client_read.cpp takes from the pool is accounted
-- for.
use ros2_perception.Read.Udp.{
  Held, Receiver, new_receiver, Event, times_out, fails, arrives, max_read_size, recover, time_out,
  ensure, receive, round, finish, read_udp_,
}
use ros2_perception.Read.Udp.Judge.{is_of}
use ros2_perception.Read.Misorder.{new_misorder}
use ros2_perception.Read.Misorder.Ownership.{copies}
use ros2_perception.Read.Packets.{write, major_version}
use ros2_perception.Read.Packets.Write.{length-write}
use ros2_perception.Prelude.{
  Ensures, Ensures-bind, count, count-last, ℕ, ◌+◌, ◌-◌, ◌≤◌, ◌≡◌, inl, inr, refl, sym, ap, subst,
  ◌∙◌, Bool, true, false, Option, none, some, List, [], ◌∷◌, ◌++◌, leb, if_elim, Option-cases,
  length, take, drop, get_or, get_or-take, length-take_le, arith,
}
use ros2_perception.Read.Udp.Balance.{held_at, gone}
use ros2_perception.Read.Udp.Owned.{
  IsWhole, IsOwned, Ready-le, received_version, is_from, all_from, take_datagram-IsOwned,
}

recover-IsOwned : (v enable : Bool) (st : Receiver) → IsOwned v st → IsOwned v (recover enable st)
unfolding recover
recover-IsOwned v true st ok =
    if_elim (IsOwned v) (leb 2 st.timeout_flag)
      (λ _. record { balanced = ok.balanced; ready = ok.ready; whole = ok.whole }) (λ _. ok)
recover-IsOwned v false st ok =
    if_elim (IsOwned v) (leb 2 st.timeout_flag)
      (λ _. record { balanced = ok.balanced; ready = ok.ready; whole = ok.whole }) (λ _. ok)

recover-kept :
    (enable : Bool) (st : Receiver)
    → ((recover enable st).gap ≡ st.gap) × ((recover enable st).held ≡ st.held)
unfolding recover
recover-kept enable st = (ground arith, ground arith)

-- At the end nothing is held.
abbrev IsDone : Receiver → Type 0
IsDone st = ((b : ℕ) → count b st.taken ≡ gone b st) × (st.held ≡ none)

module _ (crc32 : List ℕ → ℕ) (fresh : List ℕ) (alloc : ℕ → Option ℕ) (enable separate v : Bool)
    (roomy : length fresh ≡ max_read_size) where
  abbrev Ensured : Held × Receiver → Type 0
  Ensured r = IsOwned v r.1 × (r.1.held ≡ some r.0)

  ensure-held :
      (st : Receiver) (h : Held)
      → st.held ≡ some h
      → ensure crc32 fresh alloc enable separate st ≡ some (h, st)
  unfolding ensure
  ensure-held st h e = ground arith

  abbrev fresh_at : Receiver → ℕ → Receiver
  fresh_at st a = record st {
    held = some (record { address = a; bytes = fresh });
    taken = st.taken ++ (a ∷ []);
  }

  ensure-fresh :
      (st : Receiver)
      → st.held ≡ none
      → ensure crc32 fresh alloc enable separate st
        ≡ elim (alloc (length st.taken)) as (λ _. Option (Held × Receiver)) [
          | none ↦ none
          | some a ↦ some (record { address = a; bytes = fresh }, fresh_at st a)
        ]
  unfolding ensure
  ensure-fresh st e = ground arith

  fresh_at-IsOwned :
      (st : Receiver) (a : ℕ) → IsOwned v st → st.held ≡ none → IsOwned v (fresh_at st a)
  fresh_at-IsOwned st a ok e = record {
    balanced = λ b. omega (arith, ok.balanced b, ap (held_at b) e, count-last b a st.taken);
    ready = ok.ready;
    whole = roomy;
  }

  ensure-IsOwned :
      (st : Receiver) → IsOwned v st → Ensures Ensured (ensure crc32 fresh alloc enable separate st)
  ensure-IsOwned st ok = elim (Option-cases st.held) [
    | inl e ↦
        subst (Ensures Ensured) (sym (ensure-fresh st e))
          (elim (alloc (length st.taken))
            as (λ (o : Option ℕ). Ensures Ensured (elim o as (λ _. Option (Held × Receiver)) [
              | none ↦ none
              | some a ↦ some (record { address = a; bytes = fresh }, fresh_at st a)
            ])) [ none ↦ tt | some a ↦ (fresh_at-IsOwned st a ok e, refl) ])
    | inr (h, e) ↦ subst (Ensures Ensured) (sym (ensure-held st h e)) (ok, e)
  ]

  -- What the buffer holds once a datagram was received into it.
  abbrev got : Receiver → List ℕ → List ℕ
  got st bs = take (max_read_size - st.gap) bs

  abbrev received : Held → Receiver → List ℕ → Held
  received h st bs = record { address = h.address; bytes = write st.gap (got st bs) h.bytes }

  got-room :
      (h : Held) (st : Receiver) (bs : List ℕ)
      → IsOwned v st
      → st.held ≡ some h
      → st.gap + length (got st bs) ≤ length h.bytes
  got-room h st bs ok e =
      let whole = subst IsWhole e ok.whole in
      omega (arith, whole, Ready-le v st.gap ok.ready, length-take_le (max_read_size - st.gap) bs)

  received-IsOwned :
      (h : Held) (st : Receiver) (bs : List ℕ)
      → IsOwned v st
      → st.held ≡ some h
      → IsOwned v (record (recover enable st) { held = some (received h st bs) })
  received-IsOwned h st bs ok e =
      let after = recover-IsOwned v enable st ok in
      let same = (recover-kept enable st).1 ∙ e in
      record {
        balanced = λ b. omega (arith, after.balanced b, ap (held_at b) same);
        ready = after.ready;
        whole =
            length-write st.gap (got st bs) h.bytes (got-room h st bs ok e)
            ∙ subst IsWhole e ok.whole;
      }

  received-version :
      (h : Held) (st : Receiver) (bs : List ℕ)
      → IsOwned v st
      → st.held ≡ some h
      → is_of v (get_or bs 2 0) ≡ true
      → leb 26 (length (got st bs)) ≡ true
      → is_of v (major_version (drop (recover enable st).gap (received h st bs).bytes)) ≡ true
  received-version h st bs ok e version long =
      let same = (recover-kept enable st).0 in
      let byte =
        ap (λ g. major_version (drop g (received h st bs).bytes)) same
        ∙ received_version st.gap (got st bs) h.bytes (got-room h st bs ok e) (ground (arith, long))
        ∙ get_or-take (max_read_size - st.gap) 2 bs 0 (omega (arith, Ready-le v st.gap ok.ready)) in
      ap (is_of v) byte ∙ version

  receive-IsOwned :
      (h : Held) (st : Receiver) (ev : Event)
      → IsOwned v st
      → st.held ≡ some h
      → is_from v ev ≡ true
      → Ensures (IsOwned v) (receive crc32 fresh alloc enable separate h st ev)
  unfolding receive time_out
  receive-IsOwned h st times_out ok e from = record {
    balanced = ok.balanced;
    ready = ok.ready;
    whole = ok.whole;
  }
  receive-IsOwned h st fails ok e from = ok
  receive-IsOwned h st (arrives source_ip_valid bs) ok e from =
      if_elim (Ensures (IsOwned v)) source_ip_valid
        (λ _.
          take_datagram-IsOwned crc32 v enable (length (got st bs)) (received h st bs)
            (recover enable st) (received-IsOwned h st bs ok e)
            (received-version h st bs ok e from))
        (λ _. received-IsOwned h st bs ok e)

  round-IsOwned :
      (st : Receiver) (ev : Event)
      → IsOwned v st
      → is_from v ev ≡ true
      → Ensures (IsOwned v) (round crc32 fresh alloc enable separate st ev)
  unfolding round
  round-IsOwned st ev ok from =
      Ensures-bind Ensured (IsOwned v) (ensure crc32 fresh alloc enable separate st)
        (λ (r : Held × Receiver). receive crc32 fresh alloc enable separate r.0 r.1 ev)
        (ensure-IsOwned st ok) (λ r both. receive-IsOwned r.0 r.1 ev both.0 both.1 from)

  finish_held : Option Held → Receiver → Receiver
  finish_held none st = st
  finish_held (some h) st = record st { held = none; freed = st.freed ++ (h.address ∷ []) }

  finish-eq : (st : Receiver) → finish crc32 fresh alloc enable separate st ≡ finish_held st.held st
  unfolding finish finish_held
  finish-eq st = ground arith

  finish_held-IsDone :
      (o : Option Held) (st : Receiver) → IsOwned v st → st.held ≡ o → IsDone (finish_held o st)
  unfolding finish_held
  finish_held-IsDone none st ok e = (λ b. omega (arith, ok.balanced b, ap (held_at b) e), e)
  finish_held-IsDone (some h) st ok e =
      (λ b. omega (arith, ok.balanced b, ap (held_at b) e, count-last b h.address st.freed), refl)

  read_udp_-IsDone :
      (es : List Event) (st : Receiver)
      → IsOwned v st
      → all_from v es ≡ true
      → Ensures IsDone (read_udp_ crc32 fresh alloc enable separate st es)
  unfolding read_udp_
  read_udp_-IsDone [] st ok from =
      subst IsDone (sym (finish-eq st)) (finish_held-IsDone st.held st ok refl)
  read_udp_-IsDone (ev ∷ es) st ok from =
      Ensures-bind (IsOwned v) IsDone (round crc32 fresh alloc enable separate st ev)
        (λ (z : Receiver). read_udp_ crc32 fresh alloc enable separate z es)
        (round-IsOwned st ev ok (ground (arith, from)))
        (λ z owned. read_udp_-IsDone es z owned (ground (arith, from)))

pub new_receiver-IsOwned : (v : Bool) → IsOwned v new_receiver
unfolding new_receiver new_misorder count copies
new_receiver-IsOwned true = record { balanced = λ b. refl; ready = inl refl; whole = tt }
new_receiver-IsOwned false = record { balanced = λ b. refl; ready = refl; whole = tt }

-- While all packets of a port are of version 1, or all of later versions, and unless the program ends,
-- the loop holds no buffer at its end, and each that came from the pool went to the deliver stage, went
-- back or waits in the misorder queue: for each address as often as it came.
pub read_udp_-frees :
    (crc32 : List ℕ → ℕ) (fresh : List ℕ) (alloc : ℕ → Option ℕ) (enable separate v : Bool)
    (es : List Event) (st z : Receiver)
    → length fresh ≡ max_read_size
    → IsOwned v st
    → all_from v es ≡ true
    → read_udp_ crc32 fresh alloc enable separate st es ≡ some z
    → (z.held ≡ none)
      × ((b : ℕ)
          → count b z.taken ≡ count b z.delivered + (count b z.freed + copies b z.misorder.queue))
read_udp_-frees crc32 fresh alloc enable separate v es st z roomy ok from e =
    let done =
      subst (Ensures IsDone) e
        (read_udp_-IsDone crc32 fresh alloc enable separate v roomy es st ok from) in
    (done.1, done.0)
