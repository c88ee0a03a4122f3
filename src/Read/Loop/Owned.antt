-- ===== src/Read/Loop/Owned.antt =====
-- Who owns the buffers of `keep_reading_` of sdk_client/stage_client_read.cpp.
use mathlib.Core.List.{map-append}
use ros2_perception.Read.Loop.{
  Reader, stopped, Round, goes_on, ends, Finished, owned, address_of, or_alloc, Held, buffers_of,
  alloc_missing, hold, if_positive, deliver_data, deliver_message, deliver_status, take_packet,
  round, free_all, keep_reading_,
}
use ros2_perception.Read.Loop.Cases.{none_, goes_, ends_, round-cases}
use ros2_perception.Read.Packets.{
  Buffers, Outcome, at_end, corrupt, took_data, took_message, took_status, took_angles,
  read_packet_,
}
use ros2_perception.Read.Receive.{Event}
use ros2_perception.Prelude.{
  ℕ, zero, suc, ◌+◌, ◌≡◌, refl, Bool, Option, none, some, List, [], ◌∷◌, ◌++◌, ◌==◌, ◌^◌, not, ◌&&◌,
  ltb, ◌⊎◌, subst, if_elim, map, ap, ◌∙◌, one, count, count-append, count-last, length,
  Option-cases, inl, inr, arith,
}

abbrev pub delivered_at : List Held → List ℕ
delivered_at hs = map (λ (h : Held). h.address) hs

-- As often as the buffer at `a` came from the pool, it was handed over, went back, or is held.
unfoldable pub IsBalanced : ℕ → Reader → Type 0
IsBalanced a st =
    count a st.allocated
    ≡ count a (delivered_at st.delivered)
      + count a st.freed
      + (count a (address_of st.data_packet)
          + count a (address_of st.message_packet)
          + count a (address_of st.status_packet))

count-owned :
    (a : ℕ) (st : Reader)
    → count a (owned st)
      ≡ count a (address_of st.data_packet)
        + count a (address_of st.message_packet)
        + count a (address_of st.status_packet)
count-owned a st = omega (
  arith,
  count-append a (address_of st.data_packet ++ address_of st.message_packet)
      (address_of st.status_packet),
  count-append a (address_of st.data_packet) (address_of st.message_packet),
)

count-delivered :
    (a : ℕ) (hs : List Held) (h : Held)
    → count a (delivered_at (hs ++ (h ∷ []))) ≡ count a (delivered_at hs) + one a h.address
count-delivered a hs h =
    ap (count a) (map-append (λ (h' : Held). h'.address) hs (h ∷ []))
    ∙ count-last a h.address (delivered_at hs)

-- What `alloc` gives is held from then on.
or_alloc-count :
    (a : ℕ) (pool : ℕ → ℕ) (fresh : List ℕ) (o : Option Held) (taken : List ℕ)
    → count a (or_alloc pool fresh o taken).1 + count a (address_of o)
      ≡ count a taken + one a (or_alloc pool fresh o taken).0.address
unfolding count
or_alloc-count a pool fresh none taken = omega (arith, count-last a (pool (length taken)) taken)
or_alloc-count a pool fresh (some h) taken = omega arith

alloc_missing-IsBalanced :
    (a : ℕ) (pool : ℕ → ℕ) (fresh : List ℕ) (b : Buffers) (st : Reader)
    → IsBalanced a st
    → IsBalanced a (hold b (alloc_missing pool fresh st))
unfolding IsBalanced alloc_missing count
alloc_missing-IsBalanced a pool fresh b st h =
    let d = or_alloc pool fresh st.data_packet st.allocated in
    let m = or_alloc pool fresh st.message_packet d.1 in
    omega (
      arith,
      h,
      or_alloc-count a pool fresh st.data_packet st.allocated,
      or_alloc-count a pool fresh st.message_packet d.1,
      or_alloc-count a pool fresh st.status_packet m.1,
    )

abbrev BalancedRound : ℕ → Round → Type 0
BalancedRound a (goes_on next rest) = IsBalanced a next
BalancedRound a (ends reason last) = IsBalanced a last

if_positive-Balanced :
    (a : ℕ) (is_tcp : Bool) (n : ℕ) (es : List Event) (after st : Reader)
    → IsBalanced a after
    → IsBalanced a st
    → BalancedRound a (if_positive is_tcp n es after st)
if_positive-Balanced a is_tcp n es after st h h' =
    if_elim (BalancedRound a) (not (n == 0) && ltb n (2 ^ 31)) (λ e. h) (λ e. h')

deliver_data-Balanced :
    (a : ℕ) (check : List ℕ → ℕ → Option (List ℕ)) (n : ℕ) (st : Reader)
    → IsBalanced a st
    → IsBalanced a (deliver_data check n st)
unfolding IsBalanced count
deliver_data-Balanced a check n st h = elim (Option-cases st.data_packet) [
  | inl e ↦ rw (e, deliver_data) h
  | inr (held, e) ↦ elim (Option-cases (check held.bytes n)) [
    | inl refused ↦ rw (e, deliver_data, refused) h
    | inr (p, taken) ↦
        rw (e, deliver_data, taken)
          (omega (
            arith,
            h,
            count-delivered a st.delivered (record held { bytes = p }),
            ap (λ o. count a (address_of o)) e,
          ))
  ]
]

deliver_message-Balanced :
    (a : ℕ) (check : List ℕ → ℕ → Option (List ℕ)) (n : ℕ) (st : Reader)
    → IsBalanced a st
    → IsBalanced a (deliver_message check n st)
unfolding IsBalanced count
deliver_message-Balanced a check n st h = elim (Option-cases st.message_packet) [
  | inl e ↦ rw (e, deliver_message) h
  | inr (held, e) ↦ elim (Option-cases (check held.bytes n)) [
    | inl refused ↦ rw (e, deliver_message, refused) h
    | inr (p, taken) ↦
        rw (e, deliver_message, taken)
          (omega (
            arith,
            h,
            count-delivered a st.delivered (record held { bytes = p }),
            ap (λ o. count a (address_of o)) e,
          ))
  ]
]

deliver_status-Balanced : (a : ℕ) (st : Reader) → IsBalanced a st → IsBalanced a (deliver_status st)
unfolding IsBalanced count
deliver_status-Balanced a st h = elim (Option-cases st.status_packet) [
  | inl e ↦ rw (e, deliver_status) h
  | inr (held, e) ↦
      rw (e, deliver_status)
        (omega (arith, h, count-delivered a st.delivered held, ap (λ o. count a (address_of o)) e))
]

take_packet-Balanced :
    (a : ℕ) (check : List ℕ → ℕ → Option (List ℕ)) (is_tcp : Bool) (o : Outcome) (es : List Event)
    (st : Reader)
    → IsBalanced a st
    → BalancedRound a (take_packet check is_tcp o es st)
unfolding take_packet
take_packet-Balanced a check is_tcp at_end es st h = h
take_packet-Balanced a check is_tcp (corrupt n) es st h = h
take_packet-Balanced a check is_tcp (took_data n) es st h =
    if_positive-Balanced a is_tcp n es _ _ (deliver_data-Balanced a check n st h) h
take_packet-Balanced a check is_tcp (took_message n) es st h =
    if_positive-Balanced a is_tcp n es _ _ (deliver_message-Balanced a check n st h) h
take_packet-Balanced a check is_tcp (took_status n) es st h =
    if_positive-Balanced a is_tcp n es _ _ (deliver_status-Balanced a st h) h
take_packet-Balanced a check is_tcp (took_angles n) es st h =
    if_positive-Balanced a is_tcp n es _ _ h h

free_all-owned : (st : Reader) → owned (free_all st) ≡ []
unfolding free_all
free_all-owned st = refl

free_all-lem :
    (a : ℕ) (st : Reader)
    → IsBalanced a st
    → count a (free_all st).allocated
      ≡ count a (delivered_at (free_all st).delivered) + count a (free_all st).freed
unfolding IsBalanced free_all
free_all-lem a st h = omega (arith, h, count-owned a st, count-append a st.freed (owned st))

-- The loop leaves nothing behind: it holds no buffer, and each that came from the pool was handed over
-- or went back, as often as it came.
unfoldable pub LeavesNothing : Option Finished → Type 0
LeavesNothing o =
    (o ≡ none)
    ⊎ ((f : Finished) × (o ≡ some f)
        × (owned f.reader ≡ [])
        × ((a : ℕ)
            → count a f.reader.allocated
              ≡ count a (delivered_at f.reader.delivered) + count a f.reader.freed))

module _ (crc32 : List ℕ → ℕ) (check : List ℕ → ℕ → Option (List ℕ)) (pool : ℕ → ℕ) (fresh : List ℕ)
    (is_tcp : Bool) where
  round-Balanced :
      (a : ℕ) (st : Reader) (es : List Event) (r : Round)
      → IsBalanced a st
      → round crc32 check pool fresh is_tcp st es ≡ some r
      → BalancedRound a r
  unfolding round
  round-Balanced a st es r h e = elim (Option-cases (read_packet_ crc32 (buffers_of fresh st) es)) [
    | inl n ↦ absurd (ground arith)
    | inr (p, n) ↦
        let ready = hold p.buffers (alloc_missing pool fresh st) in
        let taken = take_packet check is_tcp p.outcome p.rest ready in
        let same : taken ≡ r = ground arith in
        subst (BalancedRound a) same (
          take_packet-Balanced a check is_tcp p.outcome p.rest ready
            (alloc_missing-IsBalanced a pool fresh p.buffers st h))
  ]

  -- However many rounds the loop makes and however it ends, unless it writes behind a buffer: if each
  -- buffer that came from the pool, known by its address, was handed over, went back or is held when the
  -- loop starts, as often as it came, then at the end the loop holds none, and each was handed over or
  -- went back as often as it came.
  pub keep_reading_-frees :
      (k : ℕ) (st : Reader) (es : List Event)
      → ((a : ℕ) → IsBalanced a st)
      → LeavesNothing (keep_reading_ crc32 check pool fresh is_tcp k st es)
  unfolding keep_reading_ LeavesNothing
  keep_reading_-frees zero st es h = inr (
    record { reason = stopped; reader = free_all st },
    refl,
    free_all-owned st,
    λ a. free_all-lem a st (h a),
  )
  keep_reading_-frees (suc k) st es h =
      elim (round-cases (round crc32 check pool fresh is_tcp st es)) [
        | none_ n ↦ rw (n, keep_reading_) (inl refl)
        | goes_ next rest n ↦
            rw (n, keep_reading_)
              (keep_reading_-frees k next rest (λ a. round-Balanced a st es _ (h a) n))
        | ends_ reason last n ↦
            rw (n, keep_reading_)
              (inr (
                record { reason = reason; reader = free_all last },
                refl,
                free_all-owned last,
                λ a. free_all-lem a last (round-Balanced a st es (ends reason last) (h a) n),
              ))
      ]
