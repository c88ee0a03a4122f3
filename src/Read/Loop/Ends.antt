-- ===== src/Read/Loop/Ends.antt =====
-- The end of the loop of `keep_reading_` of sdk_client/stage_client_read.cpp.
use ros2_perception.Read.Loop.{
  Reader, Ended, stopped, goes_on, ends, Finished, buffers_of, alloc_missing, hold, take_packet,
  round, free_all, keep_reading_,
}
use ros2_perception.Read.Packets.{
  Outcome, at_end, corrupt, took_data, took_message, took_status, took_angles, read_packet_,
}
use ros2_perception.Read.Receive.{Event}
use ros2_perception.Read.Loop.Cases.{none_, goes_, ends_, round-cases}
use ros2_perception.Read.Loop.Amount.{amount, read_packet_-amount}
use ros2_perception.Prelude.{
  ℕ, zero, suc, ◌<◌, ◌≡◌, ◌≢◌, refl, Bool, Option, none, some, List, Option-cases, ◌⊎◌, inl, inr,
  arith,
}

take_packet-rest :
    (check : List ℕ → ℕ → Option (List ℕ)) (is_tcp : Bool) (o : Outcome) (es rest : List Event)
    (st next : Reader)
    → take_packet check is_tcp o es st ≡ goes_on next rest
    → (o ≢ at_end) × (rest ≡ es)
unfolding take_packet
take_packet-rest check is_tcp at_end es rest st next h = cc
take_packet-rest check is_tcp (corrupt n) es rest st next h = cc
take_packet-rest check is_tcp (took_data n) es rest st next h = (λ e. cc, ground arith)
take_packet-rest check is_tcp (took_message n) es rest st next h = (λ e. cc, ground arith)
take_packet-rest check is_tcp (took_status n) es rest st next h = (λ e. cc, ground arith)
take_packet-rest check is_tcp (took_angles n) es rest st next h = (λ e. cc, ground arith)

take_packet-reason :
    (check : List ℕ → ℕ → Option (List ℕ)) (is_tcp : Bool) (o : Outcome) (es : List Event)
    (st last : Reader) (reason : Ended)
    → take_packet check is_tcp o es st ≡ ends reason last
    → reason ≢ stopped
unfolding take_packet
take_packet-reason check is_tcp at_end es st last reason h = ground arith
take_packet-reason check is_tcp (corrupt n) es st last reason h = ground arith
take_packet-reason check is_tcp (took_data n) es st last reason h = ground arith
take_packet-reason check is_tcp (took_message n) es st last reason h = ground arith
take_packet-reason check is_tcp (took_status n) es st last reason h = ground arith
take_packet-reason check is_tcp (took_angles n) es st last reason h = ground arith

-- The loop was not stopped from outside.
unfoldable pub EndsItself : Option Finished → Type 0
EndsItself o = (o ≡ none) ⊎ ((f : Finished) × (o ≡ some f) × (f.reason ≢ stopped))

module _ (crc32 : List ℕ → ℕ) (check : List ℕ → ℕ → Option (List ℕ)) (pool : ℕ → ℕ) (fresh : List ℕ)
    (is_tcp : Bool) where
  round-amount :
      (st next : Reader) (es rest : List Event)
      → round crc32 check pool fresh is_tcp st es ≡ some (goes_on next rest)
      → amount rest < amount es
  unfolding round
  round-amount st next es rest h =
      elim (Option-cases (read_packet_ crc32 (buffers_of fresh st) es)) [
        | inl e ↦ ground arith
        | inr (r, e) ↦ ground (
          arith,
          read_packet_-amount crc32 (buffers_of fresh st) es r,
          take_packet-rest check is_tcp r.outcome r.rest rest
              (hold r.buffers (alloc_missing pool fresh st)) next,
        )
      ]

  round-reason :
      (st last : Reader) (es : List Event) (reason : Ended)
      → round crc32 check pool fresh is_tcp st es ≡ some (ends reason last)
      → reason ≢ stopped
  unfolding round
  round-reason st last es reason h =
      elim (Option-cases (read_packet_ crc32 (buffers_of fresh st) es)) [
        | inl e ↦ ground arith
        | inr (r, e) ↦ ground (
          arith,
          take_packet-reason check is_tcp r.outcome r.rest
              (hold r.buffers (alloc_missing pool fresh st)) last reason,
        )
      ]

  -- A loop that is allowed more rounds than the connection has left ends by itself, unless it writes
  -- behind a buffer, and as it does with any other such number of rounds.
  pub keep_reading_-done :
      (k m : ℕ) (st : Reader) (es : List Event)
      → amount es < k
      → amount es < m
      → EndsItself (keep_reading_ crc32 check pool fresh is_tcp k st es)
        × (keep_reading_ crc32 check pool fresh is_tcp k st es
            ≡ keep_reading_ crc32 check pool fresh is_tcp m st es)
  unfolding keep_reading_ EndsItself
  keep_reading_-done zero m st es h h' = absurd (omega arith)
  keep_reading_-done (suc k) zero st es h h' = absurd (omega arith)
  keep_reading_-done (suc k) (suc m) st es h h' =
      elim (round-cases (round crc32 check pool fresh is_tcp st es)) [
        | none_ e ↦ rw (e, keep_reading_) (inl refl, refl)
        | goes_ next rest e ↦
            rw (e, keep_reading_)
              (keep_reading_-done k m next rest (omega (arith, round-amount st next es rest e))
                (omega (arith, round-amount st next es rest e)))
        | ends_ reason last e ↦
            rw (e, keep_reading_)
              (
                inr (
                  record { reason = reason; reader = free_all last },
                  refl,
                  round-reason st last es reason e,
                ),
                refl,
              )
      ]
