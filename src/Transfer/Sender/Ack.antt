-- ===== src/Transfer/Sender/Ack.antt =====
-- `sr_sender_handle_ack` of skeleton/selective_repeat.c as a whole.
use native.Mathlib.Decide.{dec_lt}
use native.Mathlib.Nat.{le_refl}
use cpe_464_program.Base.{
  ℕ, ◌+◌, ◌≤◌, ◌<◌, ◌≡◌, ◌≢◌, refl, ◌∙◌, ap, true, false, ◌||◌, arith, Bool-cases, inl, inr, ◌⊎◌,
  ◌==◌,
}
use cpe_464_program.Protocol.Udp.{UdpHeader, udp_ack, window_size}
use cpe_464_program.Transfer.Sender.{
  slot, Sender, SendEntry, Tx, is_acked, ignores_ack, mark_acked, sr_sender_handle_ack,
}
use cpe_464_program.Transfer.Sender.Invariant.{IsValid, IsSettled}
use cpe_464_program.Transfer.Sender.SendWindow.{SameTransfer}
use cpe_464_program.Transfer.Sender.Slide.{Slides, slide_loop-Slides}
use cpe_464_program.Transfer.Sender.Mark.{done, Marks, mark_acked-Marks}

-- The outcome of an acknowledgement of packet `a`.
pub record Acks (a : ℕ) (tx out : Tx) : Type 0 where
  pub valid : IsValid out.sender
  pub settled : IsSettled out.sender
  pub same : SameTransfer tx.sender out.sender
  pub next_seq : out.sender.next_seq ≡ tx.sender.next_seq
  pub outbox : out.outbox ≡ tx.outbox
  pub forward : tx.sender.base ≤ out.sender.base
  pub kept :
      (seq : ℕ)
      → out.sender.base ≤ seq
      → seq < tx.sender.next_seq
      → seq ≢ a
      → slot out.sender.window seq ≡ slot tx.sender.window seq
  pub exactly :
      (seq : ℕ) → seq < tx.sender.next_seq → done out.sender seq ≡ (done tx.sender seq || seq == a)

slid :
    (a : ℕ) (tx mid : Tx) {t : Sender}
    → Marks a tx mid
    → Slides mid.sender t
    → Acks a tx (record mid { sender = t })
slid a tx mid {t} m r = record {
  valid = r.valid;
  settled = r.settled;
  same = record {
    file_data = r.same.file_data ∙ m.same.file_data;
    file_size = r.same.file_size ∙ m.same.file_size;
    num_chunks = r.same.num_chunks ∙ m.same.num_chunks;
    peer_addr = r.same.peer_addr ∙ m.same.peer_addr;
    lossy_link = r.same.lossy_link ∙ m.same.lossy_link;
  };
  next_seq = r.next_seq ∙ m.next_seq;
  outbox = m.outbox;
  forward = omega (arith, r.forward, m.base);
  kept = λ seq l u ne.
      r.kept seq l (omega (arith, r.next_seq, m.next_seq))
      ∙ m.kept seq (omega (arith, m.base, r.forward)) u ne;
  exactly = exactly;
}
  where
    exactly : (seq : ℕ) → seq < tx.sender.next_seq → done t seq ≡ (done tx.sender seq || seq == a)
    exactly seq u = elim (dec_lt seq tx.sender.base) [
      | yes below ↦ ground (arith, m.base, r.forward)
      | no above ↦ elim (dec_lt seq t.base) [
        | yes under ↦
            ground (
              arith,
              m.base,
              m.acks seq (omega arith) u,
              r.passed seq (omega (arith, m.base)) under,
            )
        | no over ↦
            let l : t.base ≤ seq = omega arith in
            let u' : seq < t.next_seq = omega (arith, r.next_seq, m.next_seq) in
            ground (
              arith,
              m.acks seq (omega arith) u,
              ap (λ (e : SendEntry). is_acked e.state) (r.kept seq l u'),
            )
      ]
    ]

ignored :
    (a : ℕ) (tx : Tx)
    → IsValid tx.sender
    → IsSettled tx.sender
    → (a < tx.sender.base) ⊎ (tx.sender.next_seq ≤ a)
    → Acks a tx tx
ignored a tx v settled out_of_range = record {
  valid = v;
  settled = settled;
  same = record {
    file_data = refl;
    file_size = refl;
    num_chunks = refl;
    peer_addr = refl;
    lossy_link = refl;
  };
  next_seq = refl;
  outbox = refl;
  forward = le_refl _;
  kept = λ seq l u ne. refl;
  exactly =
      λ seq u. elim (Bool-cases (seq == a)) [ inl same ↦ ground arith | inr other ↦ ground arith ];
}

skipped :
    (hdr : UdpHeader) (tx : Tx)
    → IsValid tx.sender
    → hdr.msg_type ≡ udp_ack
    → ignores_ack tx.sender hdr ≡ true
    → (hdr.ack_num < tx.sender.base) ⊎ (tx.sender.next_seq ≤ hdr.ack_num)
unfolding ignores_ack
skipped hdr tx v kind h = ground (arith, v.fits, v.bounded, v.sent, v.small, v.chunks)

in_window :
    (hdr : UdpHeader) (tx : Tx)
    → IsValid tx.sender
    → ignores_ack tx.sender hdr ≡ false
    → (tx.sender.base ≤ hdr.ack_num) × (hdr.ack_num < tx.sender.base + window_size)
unfolding ignores_ack
in_window hdr tx v h = ground (arith, v.bounded, v.sent, v.small, v.chunks)

foreign : (hdr : UdpHeader) (tx : Tx) → hdr.msg_type ≢ udp_ack → ignores_ack tx.sender hdr ≡ true
unfolding ignores_ack
foreign hdr tx other = ground arith

-- An acknowledgement, in any state that a transfer reaches and whatever its number: of the packets
-- sent so far exactly that one becomes acknowledged besides those that were, the window then stands at
-- the first that is not, and nothing is sent. Any other packet changes nothing.
pub sr_sender_handle_ack-Acks :
    (hdr : UdpHeader) (tx : Tx)
    → IsValid tx.sender
    → IsSettled tx.sender
    → (hdr.msg_type ≡ udp_ack → Acks hdr.ack_num tx (sr_sender_handle_ack hdr tx))
      × (hdr.msg_type ≢ udp_ack → sr_sender_handle_ack hdr tx ≡ tx)
unfolding sr_sender_handle_ack
sr_sender_handle_ack-Acks hdr tx v settled = (
  (λ kind. elim (Bool-cases (ignores_ack tx.sender hdr)) [
    | inl skip ↦ rw skip (ignored hdr.ack_num tx v settled (skipped hdr tx v kind skip))
    | inr handle ↦
        let (low, high) = in_window hdr tx v handle in
        let marks = mark_acked-Marks tx v hdr.ack_num low high in
        rw handle (
          slid hdr.ack_num tx (mark_acked hdr.ack_num tx) marks (
            slide_loop-Slides (window_size + 1) (mark_acked hdr.ack_num tx).sender marks.valid
              (omega (arith, marks.valid.fits))))
  ]),
  λ other. rw (foreign hdr tx other),
)

-- In every state between two calls, a packet of the kind UDP_ACK is handled so: the packets that the
-- sender takes for acknowledged are those before and, among the ones it has sent, the acknowledged one,
-- wherever it lies. The state stays valid, the base has moved past every acknowledged packet it could
-- reach, and nothing is sent.
pub sr_sender_handle_ack_acknowledges :
    (hdr : UdpHeader) (tx : Tx)
    → IsValid tx.sender
    → IsSettled tx.sender
    → hdr.msg_type ≡ udp_ack
    → Acks hdr.ack_num tx (sr_sender_handle_ack hdr tx)
sr_sender_handle_ack_acknowledges hdr tx v settled kind =
    (sr_sender_handle_ack-Acks hdr tx v settled).0 kind
