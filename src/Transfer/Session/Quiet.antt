-- ===== src/Transfer/Session/Quiet.antt =====
-- The end of a round of skeleton/client.c's main loop in which no packet's time is up.
use native.Mathlib.Decide.{ℕ_discrete}
use cpe_464_program.Base.{
  ℕ, zero, suc, ◌+◌, ◌-◌, ◌≤◌, ◌<◌, ◌≡◌, Bool-cases, inl, inr, true, false, refl, some, arith,
  Option,
}
use cpe_464_program.Protocol.Udp.{window_size}
use cpe_464_program.Transfer.Sender.{
  slot, Tx, PacketState, is_acked, is_pending, Sender, can_send, send_one, send_loop, timed_out,
  timeout_loop, sr_sender_send_window, sr_sender_check_timeouts,
}
use cpe_464_program.Transfer.Sender.Invariant.{IsValid}
use cpe_464_program.Transfer.Sender.Ack.{Acks}
use cpe_464_program.Transfer.Sender.Scan.{Scans}
use cpe_464_program.Transfer.Sender.Sending.{
  after, entry_sent, sender-send_one, others, itself, after-IsValid, guard,
}

-- Nothing in flight has timed out.
pub IsQuiet : ℕ → Sender → Type 0
IsQuiet now s = (seq : ℕ) → s.base ≤ seq → seq < s.next_seq → timed_out now s seq ≡ false

module _ (now : ℕ) where
  fresh_entry-waits :
      (tx : Tx) (v : IsValid tx.sender) (go : can_send tx.sender ≡ true)
      → timed_out now (after now tx v go) tx.sender.next_seq ≡ false
  unfolding timed_out
  fresh_entry-waits tx v go = rw (itself now tx v go) (ground (arith, entry_sent now tx v go))

  after-IsQuiet :
      (tx : Tx) (v : IsValid tx.sender) (go : can_send tx.sender ≡ true)
      → IsQuiet now tx.sender
      → IsQuiet now (after now tx v go)
  unfolding IsQuiet timed_out
  after-IsQuiet tx v go quiet seq l u = elim (ℕ_discrete tx.sender.next_seq seq) [
    | yes e ↦ rw (← e) (fresh_entry-waits tx v go)
    | no ne ↦
        rw (others now tx v go seq l (omega (arith, guard now tx v go)) ne)
          (quiet seq l (omega arith))
  ]

  send_loop-IsQuiet :
      (fuel : ℕ) (tx : Tx) (packets : ℕ)
      → IsValid tx.sender
      → IsQuiet now tx.sender
      → IsQuiet now (send_loop fuel now tx packets).0.sender
  unfolding send_loop
  send_loop-IsQuiet zero tx packets v quiet = quiet
  send_loop-IsQuiet (suc fuel) tx packets v quiet = elim (Bool-cases (can_send tx.sender)) [
    | inr end ↦ rw (end, send_loop) quiet
    | inl go ↦
        let e = sender-send_one now tx v go in
        rw (go, send_loop)
          (send_loop-IsQuiet fuel (send_one now tx) (packets + 1) (rw e (after-IsValid now tx v go))
            (rw e (after-IsQuiet tx v go quiet)))
  ]

timeout_loop-quiet :
    (n now lo : ℕ) (tx : Tx) (found : ℕ)
    → ((seq : ℕ) → lo ≤ seq → seq < lo + n → timed_out now tx.sender seq ≡ false)
    → timeout_loop n now lo tx found ≡ (tx, some found)
unfolding timeout_loop
timeout_loop-quiet zero now lo tx found idle = refl
timeout_loop-quiet (suc n) now lo tx found idle =
    rw (idle lo (omega arith) (omega arith), timeout_loop)
      (timeout_loop-quiet n now (lo + 1) tx found (λ seq l u. idle seq (omega arith) (omega arith)))

-- Where nothing has timed out, a round at the same time sends the window and sends nothing again.
pub send-check-quiet :
    (now : ℕ) (tx : Tx)
    → IsValid tx.sender
    → IsQuiet now tx.sender
    → sr_sender_check_timeouts now (sr_sender_send_window now tx).0
      ≡ ((sr_sender_send_window now tx).0, some 0)
unfolding sr_sender_check_timeouts sr_sender_send_window IsQuiet
send-check-quiet now tx v quiet =
    let out = (send_loop (window_size + 1) now tx 0).0 in
    let still : IsQuiet now out.sender = send_loop-IsQuiet now (window_size + 1) tx 0 v quiet in
    timeout_loop-quiet (out.sender.next_seq - out.sender.base) now out.sender.base out 0
      (λ seq l u. still seq l (omega arith))

pub send-IsQuiet :
    (now : ℕ) (tx : Tx)
    → IsValid tx.sender
    → IsQuiet now tx.sender
    → IsQuiet now (sr_sender_send_window now tx).0.sender
unfolding sr_sender_send_window
send-IsQuiet now tx v quiet = send_loop-IsQuiet now (window_size + 1) tx 0 v quiet

-- Before anything is sent.
pub unsent-IsQuiet : (now : ℕ) (s : Sender) → s.next_seq ≡ 0 → IsQuiet now s
unfolding IsQuiet
unsent-IsQuiet now s nothing seq l u = absurd (omega (arith, nothing))

acked_waits : (state : PacketState) → is_acked state ≡ true → is_pending state ≡ false
acked_waits state known = ground (arith, known)

-- An acknowledgement makes nothing time out.
pub handle_ack-IsQuiet :
    (now a : ℕ) (tx out : Tx) → Acks a tx out → IsQuiet now tx.sender → IsQuiet now out.sender
unfolding IsQuiet timed_out
handle_ack-IsQuiet now a tx out acks quiet seq l u =
    let u' : seq < tx.sender.next_seq = omega (arith, acks.next_seq) in
    elim (ℕ_discrete seq a) [
      | no ne ↦ rw (acks.kept seq l u' ne) (quiet seq (omega (arith, acks.forward)) u')
      | yes same ↦
          let known : is_acked (slot out.sender.window seq).state ≡ true =
            ground (arith, acks.exactly seq u') in
          rw (acked_waits (slot out.sender.window seq).state known) refl
    ]

-- After a scan that did not give up.
pub Scans-IsQuiet :
    (now count : ℕ) {tx out : Tx} {result : Option ℕ}
    → tx.sender.base ≤ tx.sender.next_seq
    → Scans now tx.sender.base (tx.sender.next_seq - tx.sender.base) tx out 0 result
    → result ≡ some count
    → IsQuiet now out.sender
unfolding IsQuiet timed_out
Scans-IsQuiet now count {tx} {out} {result} le s goes_on seq l u = elim (s.ends) [
  | inr (less, stopped, spent) ↦ absurd (ground (arith, stopped, goes_on))
  | inl (all, found) ↦
      let l' : tx.sender.base ≤ seq = omega (arith, s.base) in
      let u' : seq < tx.sender.next_seq = omega (arith, s.next_seq) in
      elim (Bool-cases (timed_out now tx.sender seq)) [
        | inl due ↦ rw (s.resent seq l' (omega (arith, all)) due) (ground arith)
        | inr idle ↦ rw (s.untouched seq l' u' (λ low high. idle)) idle
      ]
]
