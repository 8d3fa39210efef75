-- ===== src/Transfer/Sender/Resend.antt =====
-- A round of the scan of `sr_sender_check_timeouts` of skeleton/selective_repeat.c that sends a packet again.
use mathlib.Core.List.{append_assoc}
use native.Mathlib.Decide.{ℕ_discrete}
use mathlib.Core.Path.{subst}
use cpe_464_program.Base.{
  ℕ, suc, ◌+◌, ◌≤◌, ◌<◌, ◌≡◌, ◌≢◌, sym, ◌∙◌, ap, true, Option, List, [], ◌∷◌, ◌++◌, arith, inl, inr,
}
use cpe_464_program.Protocol.Udp.{max_retries}
use cpe_464_program.Transfer.Window.{count_from, count_from_ext}
use cpe_464_program.Transfer.Sender.{Tx, Datagram, slot, retransmit, timed_out, hand_over}
use cpe_464_program.Transfer.Sender.Invariant.{IsValid, data_packet}
use cpe_464_program.Transfer.Sender.Retransmit.{
  after, sender-retransmit, outbox-retransmit, others, itself, again-entry, state_kept,
}
use cpe_464_program.Transfer.Sender.Scan.{
  chosen_datagrams, chosen_datagrams_ext, due_datagrams, resent_entry, IsExhausted, Scans,
}

module _ (now lo n : ℕ) (tx : Tx) (v : IsValid tx.sender) (low : tx.sender.base ≤ lo)
    (high : lo + suc n ≤ tx.sender.next_seq) (due : timed_out now tx.sender lo ≡ true)
    (spare : (slot tx.sender.window lo).retries < max_retries) where
  later :
      (k : ℕ)
      → lo < k
      → k < lo + suc n
      → slot (retransmit now lo tx).sender.window k ≡ slot tx.sender.window k
  later k l u =
      rw (sender-retransmit now tx v lo low (omega arith))
        (others now tx v lo low (omega arith) k (omega arith) (omega (arith, v.fits)) (omega arith))

  later_due :
      (k : ℕ)
      → lo < k
      → k < lo + suc n
      → timed_out now (retransmit now lo tx).sender k ≡ timed_out now tx.sender k
  unfolding timed_out
  later_due k l u = rw (later k l u)

  elsewhere :
      (k : ℕ)
      → tx.sender.base ≤ k
      → k < tx.sender.next_seq
      → lo ≢ k
      → slot (retransmit now lo tx).sender.window k ≡ slot tx.sender.window k
  elsewhere k l u ne =
      rw (sender-retransmit now tx v lo low (omega arith))
        (others now tx v lo low (omega arith) k l (omega (arith, v.fits)) ne)

  elsewhere_due :
      (k : ℕ)
      → tx.sender.base ≤ k
      → k < tx.sender.next_seq
      → lo ≢ k
      → timed_out now (retransmit now lo tx).sender k ≡ timed_out now tx.sender k
  unfolding timed_out
  elsewhere_due k l u ne = rw (elsewhere k l u ne)

  e : (retransmit now lo tx).sender ≡ after now tx v lo low (omega arith)
  e = sender-retransmit now tx v lo low (omega arith)

  pub sends_again :
      {out : Tx} {found : ℕ} {result : Option ℕ}
      → Scans now (lo + 1) n (retransmit now lo tx) out (found + 1) result
      → Scans now lo (suc n) tx out found result
  unfolding count_from
  sends_again {out} {found} {result} rest = record {
    valid = rest.valid;
    same = record {
      file_data = rest.same.file_data ∙ ap (λ s. s.file_data) e;
      file_size = rest.same.file_size ∙ ap (λ s. s.file_size) e;
      num_chunks = rest.same.num_chunks ∙ ap (λ s. s.num_chunks) e;
      peer_addr = rest.same.peer_addr ∙ ap (λ s. s.peer_addr) e;
      lossy_link = rest.same.lossy_link ∙ ap (λ s. s.lossy_link) e;
    };
    base = rest.base ∙ ap (λ s. s.base) e;
    next_seq = rest.next_seq ∙ ap (λ s. s.next_seq) e;
    chunks_acked = rest.chunks_acked ∙ ap (λ s. s.chunks_acked) e;
    states = λ seq.
        rest.states seq
        ∙ ap (λ s. (slot s.window seq).state) e
        ∙ state_kept now tx v lo low (omega arith) seq;
    looked = suc rest.looked;
    resent = λ seq l u d. elim (ℕ_discrete seq lo) [
      | yes same ↦ rw same first_resent
      | no ne ↦
          let l' : lo < seq = omega arith in
          let u' : seq < lo + suc n = omega (arith, rest.within) in
          rest.resent seq (omega arith) (omega arith) (rw (later_due seq l' u') d)
          ∙ ap (resent_entry now) (later seq l' u')
    ];
    untouched = λ seq l u still. elim (ℕ_discrete lo seq) [
      | yes same ↦ absurd (ground (arith, due, rw (← same) at (still (omega arith) (omega arith))))
      | no ne ↦
          rest.untouched seq (rw base_same l) (rw next_same u)
            (λ l' u'. elsewhere_due seq l u ne ∙ still (omega arith) (omega arith))
          ∙ elsewhere seq l u ne
    ];
    outbox = outbox;
    allowed = λ seq l u d. elim (ℕ_discrete seq lo) [
      | yes same ↦ rw same spare
      | no ne ↦
          let l' : lo < seq = omega arith in
          let u' : seq < lo + suc n = omega (arith, rest.within) in
          let known = rest.allowed seq (omega arith) (omega arith) (rw (later_due seq l' u') d) in
          rw (later seq l' u') at known
    ];
    within = omega (arith, rest.within);
    ends = elim (rest.ends) [
      | inl (all, r) ↦ inl (
        omega arith,
        ground (
          arith,
          r,
          due,
          count_from_ext (timed_out now (retransmit now lo tx).sender) (timed_out now tx.sender)
              (lo + 1) n (λ k l u. later_due k (omega arith) (omega arith)),
        ),
      )
      | inr (some_left, r, spent) ↦ inr (omega arith, r, exhausted rest.looked some_left spent)
    ];
  }
    where
      base_same : (retransmit now lo tx).sender.base ≡ tx.sender.base
      base_same = ap (λ s. s.base) e

      next_same : (retransmit now lo tx).sender.next_seq ≡ tx.sender.next_seq
      next_same = ap (λ s. s.next_seq) e

      first_resent : slot out.sender.window lo ≡ resent_entry now (slot tx.sender.window lo)
      first_resent =
          rest.untouched lo (omega (arith, base_same)) (omega (arith, next_same))
            (λ l u. absurd (omega arith))
          ∙ ap (λ s. slot s.window lo) e
          ∙ itself now tx v lo low (omega arith)
          ∙ again-entry now tx v lo low (omega arith)

      exhausted :
          (m : ℕ)
          → m < n
          → IsExhausted now (retransmit now lo tx).sender (lo + 1 + m)
          → IsExhausted now tx.sender (lo + suc m)
      exhausted m u x =
          let l' : lo < lo + 1 + m = omega arith in
          let u' : lo + 1 + m < lo + suc n = omega arith in
          subst (IsExhausted now tx.sender) {x = lo + 1 + m} (omega arith) (record {
            due = sym (later_due (lo + 1 + m) l' u') ∙ x.due;
            spent = rw (later (lo + 1 + m) l' u') at (x.spent);
          })

      first : List Datagram
      first = hand_over tx.sender (data_packet tx.sender.file_data lo) ∷ []

      tail_same :
          due_datagrams now (retransmit now lo tx).sender (lo + 1) rest.looked
          ≡ due_datagrams now tx.sender (lo + 1) rest.looked
      tail_same =
          ap
            (λ s.
              chosen_datagrams s.lossy_link s.peer_addr s.file_data
                (timed_out now (retransmit now lo tx).sender) (lo + 1) rest.looked)
            e
          ∙ chosen_datagrams_ext tx.sender.lossy_link tx.sender.peer_addr tx.sender.file_data
              (timed_out now (retransmit now lo tx).sender) (timed_out now tx.sender) (lo + 1)
              rest.looked (λ k l u. later_due k (omega arith) (omega (arith, rest.within)))

      outbox : out.outbox ≡ tx.outbox ++ due_datagrams now tx.sender lo (suc rest.looked)
      outbox = rw due (
          (rw (tail_same, outbox-retransmit now tx v lo low (omega arith)) at (rest.outbox))
          ∙ append_assoc tx.outbox first (due_datagrams now tx.sender (lo + 1) rest.looked))
