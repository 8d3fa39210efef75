-- ===== src/Transfer/Session/Advance.antt =====
-- From every state of a session between skeleton/selective_repeat.c's two ends, some steps bring the window on.
use mathlib.Core.Path.{subst}
use native.Mathlib.Decide.{dec_lt}
use cpe_464_program.Base.{
  ℕ, ◌≤◌, ◌<◌, ◌≡◌, refl, sym, ◌∙◌, ◌⊎◌, inl, inr, ap, Bool, true, false, true-ne-false, some,
  Bool-cases, List, arith, length,
}
use cpe_464_program.Protocol.Udp.{decode}
use cpe_464_program.Transfer.Window.{chunks_of}
use cpe_464_program.Transfer.Sender.{
  Tx, sr_sender_send_window, sr_sender_handle_ack, sr_sender_is_complete,
}
use cpe_464_program.Transfer.Sender.SendWindow.{sr_sender_send_window-Sends}
use cpe_464_program.Transfer.Sender.Ack.{Acks, sr_sender_handle_ack_acknowledges}
use cpe_464_program.Transfer.Sender.Complete.{sr_sender_is_complete_iff}
use cpe_464_program.Transfer.Receiver.{Rx}
use cpe_464_program.Transfer.Receiver.Handle.{sr_receiver_handle_data_accepts}
use cpe_464_program.Transfer.Session.{
  Session, active, finished, status_after, after_round, data_arrives, ack_arrives, Reach, here,
  next,
}
use cpe_464_program.Transfer.Session.Invariant.{IsGood}
use cpe_464_program.Transfer.Session.Steps.{send-IsGood, ack_arrives-IsGood}
use cpe_464_program.Transfer.Session.Correct.{Reach-IsGood}
use cpe_464_program.Transfer.Session.Coverage.{IsCovered, Answered, Reach-IsCovered}
use cpe_464_program.Transfer.Session.Quiet.{IsQuiet, send-check-quiet, handle_ack-IsQuiet}

pub Reach-append :
    {damaged : Bool} {u v w : Session} → Reach damaged u v → Reach damaged v w → Reach damaged u w
Reach-append r here = r
Reach-append r (next before step) = next (Reach-append r before) step

-- The receiver is never behind the sender.
base-le :
    {file : List ℕ} {w : Session} → IsGood false file w → w.tx.sender.base ≤ w.rx.receiver.base
base-le {file} {w} g = elim (dec_lt w.rx.receiver.base w.tx.sender.base) [
  | yes behind ↦
      let known = g.agreed refl w.rx.receiver.base (omega (arith, g.sending.sent)) (ground arith) in
      absurd (
        ground (
          arith,
          known,
          g.receiver_settled,
          g.receiving.chunks,
          g.sending.chunks,
          g.sending.file,
          ap (λ f. length f) g.same_file,
          g.sending.bounded,
          g.sending.sent,
        ))
  | no ahead ↦ omega arith
]

-- The packet at the sender's base has reached the receiver, and is answered.
pub record Delivered (w : Session) : Type 0 where
  pub out : Rx
  pub run : Reach false w (record w { rx = out })
  pub answer : Answered w.tx.sender.base out.outbox

deliver_base :
    {file : List ℕ} {w : Session}
    → IsGood false file w
    → IsCovered file w
    → w.tx.sender.base < w.tx.sender.next_seq
    → Delivered w
deliver_base {file} {w} g c more =
    let seq = w.tx.sender.base in
    let sent = c.data_sent seq more in
    let inside : seq < chunks_of (length file) = omega (
      arith,
      g.sending.sent,
      g.sending.bounded,
      g.sending.chunks,
      g.sending.file,
      ap (λ f. length f) g.same_file,
    ) in
    let (out, handled, t) =
      sr_receiver_handle_data_accepts file (w.rx) seq sent.datagram.bytes g.receiving
        g.receiver_settled inside sent.packet (omega (arith, base-le g)) in
    let run : Reach false w (record w { rx = out }) =
      next here (data_arrives w sent.datagram out sent.on_way handled) in
    record {
      out = out;
      run = run;
      answer = (Reach-IsCovered g c run).ack_sent seq (ground (arith, t.exactly seq));
    }

-- An acknowledgement of the base moves it.
base-Acks :
    (a : ℕ) (tx out : Tx)
    → a ≡ tx.sender.base
    → Acks a tx out
    → tx.sender.base < tx.sender.next_seq
    → tx.sender.base < out.sender.base
base-Acks a tx out e acks more = elim (dec_lt tx.sender.base out.sender.base) [
  | yes moved ↦ moved
  | no still ↦
      let same : out.sender.base ≡ tx.sender.base = omega (arith, acks.forward) in
      let waits = acks.settled (omega (arith, acks.next_seq)) in
      let known = acks.exactly tx.sender.base more in
      absurd (ground (arith, rw same at waits, known))
]

-- What a round comes to that gives nothing up: the end of the transfer, or packets in flight.
abbrev pub IsDriven : Session → Type 0
IsDriven out =
    ((out.status ≡ finished) × (sr_sender_is_complete out.tx.sender ≡ true))
    ⊎ ((out.status ≡ active) × (out.tx.sender.base < out.tx.sender.next_seq))

-- A round of a valid state at a time at which nothing has timed out.
pub record Drives (now : ℕ) (w : Session) : Type 0 where
  pub base : (after_round now now w).tx.sender.base ≡ w.tx.sender.base
  pub driven : IsDriven (after_round now now w)

all_acknowledged :
    {damaged : Bool} {file : List ℕ} {w : Session}
    → IsGood damaged file w
    → w.tx.sender.num_chunks ≤ w.tx.sender.base
    → sr_sender_is_complete w.tx.sender ≡ true
all_acknowledged {w = w} g end =
    (sr_sender_is_complete_iff w.tx.sender g.sending g.sender_settled).1
      (λ seq u. (omega (arith, g.sending.sent), ground arith))

pub round_quiet :
    {damaged : Bool} {file : List ℕ} (now : ℕ) (w : Session)
    → IsGood damaged file w
    → IsQuiet now w.tx.sender
    → Drives now w
round_quiet {damaged} {file} now w g quiet =
    let tx1 = (sr_sender_send_window now (w.tx)).0 in
    let out : Session = record w {
      tx = tx1;
      status = status_after tx1.sender (some 0);
      clock = now;
    } in
    let same : after_round now now w ≡ out =
      ap (λ res. record w { tx = res.0; status = status_after res.0.sender res.1; clock = now })
        (send-check-quiet now (w.tx) g.sending quiet) in
    let s = sr_sender_send_window-Sends now (w.tx) g.sending g.sender_settled in
    let good = send-IsGood g now in
    let driven : IsDriven out = elim (Bool-cases (sr_sender_is_complete tx1.sender)) [
      | inl done ↦ inl (rw done refl, done)
      | inr going ↦ inr (
        rw going refl,
        elim (dec_lt tx1.sender.base tx1.sender.next_seq) [
          | yes more ↦ more
          | no end ↦ absurd (
              true-ne-false (
                sym (all_acknowledged good (omega (arith, s.base, s.filled, s.same.num_chunks)))
                ∙ going))
        ],
      )
    ] in
    record {
      base = ap (λ v. v.tx.sender.base) same ∙ s.base;
      driven = subst IsDriven (sym same) driven;
    }

-- A longer run of an active transfer that has acknowledged more.
pub record Advances (w : Session) : Type 0 where
  pub later : Session
  pub run : Reach false w later
  pub forward : w.tx.sender.base < later.tx.sender.base
  pub driven : IsDriven later

-- The packet at the base is taken, answered and acknowledged, in a round at the time of the last one.
pub advance :
    {file : List ℕ} {w : Session}
    → IsGood false file w
    → IsCovered file w
    → IsQuiet w.clock w.tx.sender
    → w.status ≡ active
    → w.tx.sender.base < w.tx.sender.next_seq
    → Advances w
advance {file} {w} g c quiet on more =
    let d = deliver_base g c more in
    let answer = d.answer in
    let delivered : Session = record w { rx = d.out } in
    let ack_num = (decode answer.datagram.bytes).ack_num in
    let tx1 = sr_sender_handle_ack (decode answer.datagram.bytes) (w.tx) in
    let acks =
      sr_sender_handle_ack_acknowledges (decode answer.datagram.bytes) (w.tx) g.sending
        g.sender_settled answer.packet.kind in
    let good = ack_arrives-IsGood (Reach-IsGood g d.run) answer.datagram answer.on_way in
    let r =
      round_quiet w.clock (record delivered { tx = tx1 }) good
        (handle_ack-IsQuiet w.clock ack_num (w.tx) tx1 acks quiet) in
    record {
      later = after_round w.clock w.clock (record delivered { tx = tx1 });
      run = next d.run (ack_arrives delivered answer.datagram w.clock w.clock on answer.on_way);
      forward =
          let moved : w.tx.sender.base < tx1.sender.base =
            base-Acks ack_num (w.tx) tx1 answer.packet.ack acks more in
          omega (arith, moved, r.base);
      driven = r.driven;
    }
