-- ===== src/Transfer/Sender/Timeout.antt =====
-- `sr_sender_check_timeouts` of skeleton/selective_repeat.c: the whole scan.
use native.Mathlib.Nat.{le_refl}
use cpe_464_program.Base.{
  ℕ, zero, suc, ◌+◌, ◌-◌, ◌≤◌, ◌<◌, ◌≡◌, ◌↔◌, sub64, true, arith, Bool-cases, inl, inr, leb,
}
use cpe_464_program.Protocol.Udp.{max_retries}
use cpe_464_program.Transfer.Sender.{
  Tx, is_pending, slot, retransmit, timed_out, timeout_loop, sr_sender_check_timeouts,
}
use cpe_464_program.Transfer.Sender.Invariant.{IsValid, IsSettled}
use cpe_464_program.Transfer.Sender.Retransmit.{sender-retransmit, after-IsValid}
use cpe_464_program.Transfer.Sender.Resend.{sends_again}
use cpe_464_program.Transfer.Sender.Scan.{Scans, nothing_left, gives_up, passes_over}

timeout_loop-Scans :
    (n now lo : ℕ) (tx : Tx) (found : ℕ)
    → IsValid tx.sender
    → tx.sender.base ≤ lo
    → lo + n ≤ tx.sender.next_seq
    → Scans now lo n tx (timeout_loop n now lo tx found).0 found (timeout_loop n now lo tx found).1
unfolding timeout_loop
timeout_loop-Scans zero now lo tx found v low high = nothing_left now lo found tx v
timeout_loop-Scans (suc n) now lo tx found v low high =
    elim (Bool-cases (timed_out now tx.sender lo)) [
      | inr idle ↦
          rw (idle, timeout_loop)
            (passes_over now lo n idle
              (timeout_loop-Scans n now (lo + 1) tx found v (omega arith) (omega arith)))
      | inl due ↦ elim (Bool-cases (leb max_retries (slot tx.sender.window lo).retries)) [
        | inl out_of ↦
            rw (due, out_of, timeout_loop)
              (gives_up now lo n found tx v (record { due = due; spent = ground arith }))
        | inr has ↦
            let e = sender-retransmit now tx v lo low (omega arith) in
            let rest =
              timeout_loop-Scans n now (lo + 1) (retransmit now lo tx) (found + 1)
                (rw e (after-IsValid now tx v lo low (omega arith))) (rw e (omega arith))
                (rw e (omega arith)) in
            rw (due, has, timeout_loop) (sends_again now lo n tx v low high due (ground arith) rest)
      ]
    ]

timed_out_iff :
    (now : ℕ) (tx : Tx)
    → IsValid tx.sender
    → (seq : ℕ) → tx.sender.base ≤ seq
    → seq < tx.sender.next_seq
    → (timed_out now tx.sender seq ≡ true) ↔ (
        (is_pending (slot tx.sender.window seq).state ≡ true)
        × (500 ≤ sub64 now (slot tx.sender.window seq).send_time_ms))
unfolding timed_out
timed_out_iff now tx v seq l u = ground (arith, (v.in_flight seq l u).numbered)

-- A call of `sr_sender_check_timeouts` in any state that a transfer reaches ends with the invariant
-- kept and no acknowledgement changed. It sends again, in order, the packet of each chunk in flight
-- whose time is up, and no other, up to the first that has been sent again 10 times: if there is one, the
-- result is -1, else it is the number of packets sent again. Each slot of a packet that is sent again takes the
-- time of the call and counts one more retry, and every other slot in flight stays as it is. The time of a
-- chunk in flight is up exactly if it waits for its acknowledgement and at least 500 ms lie between its last
-- sending and the call.
pub sr_sender_check_timeouts-Scans :
    (now : ℕ) (tx : Tx)
    → IsValid tx.sender
    → IsSettled tx.sender
    → Scans now tx.sender.base
        (tx.sender.next_seq - tx.sender.base)
        tx
        (sr_sender_check_timeouts now tx).0
        0
        (sr_sender_check_timeouts now tx).1
      × IsSettled (sr_sender_check_timeouts now tx).0.sender
      × ((seq : ℕ)
          → tx.sender.base ≤ seq
          → seq < tx.sender.next_seq
          → (timed_out now tx.sender seq ≡ true) ↔ (
              (is_pending (slot tx.sender.window seq).state ≡ true)
              × (500 ≤ sub64 now (slot tx.sender.window seq).send_time_ms)))
unfolding sr_sender_check_timeouts
sr_sender_check_timeouts-Scans now tx v settled =
    (scans, still, λ seq l u. timed_out_iff now tx v seq l u)
  where
    n : ℕ
    n = tx.sender.next_seq - tx.sender.base

    scans :
        Scans now tx.sender.base n tx
          (timeout_loop n now tx.sender.base tx 0).0
          0
          (timeout_loop n now tx.sender.base tx 0).1
    scans = timeout_loop-Scans n now tx.sender.base tx 0 v (le_refl _) (omega (arith, v.sent))

    still : IsSettled (timeout_loop n now tx.sender.base tx 0).0.sender
    still more =
        rw (scans.base, scans.states tx.sender.base)
          (settled (omega (arith, scans.base, scans.next_seq)))
