-- ===== src/Transfer/Session/Coverage.antt =====
-- What datagrams are on the way in a session of skeleton/selective_repeat.c: chunks and acknowledgements.
use mathlib.Core.Path.{subst}
use mathlib.Core.List.{Memᴰ}
use mathlib.Core.Option.{some-injective}
use native.Mathlib.Decide.{dec_lt}
use cpe_464_program.Base.{
  ℕ, zero, suc, ◌+◌, ◌≤◌, ◌<◌, ◌≡◌, refl, sym, ◌∙◌, ap, Bool, true, false, true-ne-false, some,
  List, [], ◌∷◌, ◌++◌, arith, length, All-member, Bool-cases, inl, inr,
}
use cpe_464_program.Protocol.Udp.{decode, window_size}
use cpe_464_program.Transfer.Packet.{build_ack_packet}
use cpe_464_program.Transfer.Packet.Laws.{IsDataPacket, IsAckPacket, build_ack_packet-IsAckPacket}
use cpe_464_program.Transfer.Window.{chunk, chunks_of, max_file_size}
use cpe_464_program.Transfer.Sender.{
  Addr, Datagram, sr_sender_send_window, sr_sender_handle_ack, sr_sender_check_timeouts,
}
use cpe_464_program.Transfer.Sender.Invariant.{data_packet}
use cpe_464_program.Transfer.Sender.SendWindow.{
  Sends, datagrams, chunk_datagrams, sr_sender_send_window-Sends,
}
use cpe_464_program.Transfer.Sender.Ack.{sr_sender_handle_ack_acknowledges}
use cpe_464_program.Transfer.Sender.Timeout.{sr_sender_check_timeouts-Scans}
use cpe_464_program.Transfer.Receiver.{Rx, sr_receiver_handle_data}
use cpe_464_program.Transfer.Receiver.Invariant.{has}
use cpe_464_program.Transfer.Receiver.Handle.{
  Takes, sr_receiver_handle_data_drops, sr_receiver_handle_data-Takes,
}
use cpe_464_program.Transfer.Session.{
  Session, after_round, Step, opens, round, data_arrives, noise_arrives, ack_arrives,
  damage_arrives, Reach, here, next,
}
use cpe_464_program.Transfer.Session.Invariant.{
  IsGood, CarriesChunk, CarriesAck, data_packet-IsDataPacket,
}
use cpe_464_program.Transfer.Session.Steps.{send-IsGood, ack_arrives-IsGood}
use cpe_464_program.Transfer.Session.Correct.{opened-IsGood, Reach-IsGood}

module _ {A : Type 0} {x : A} where
  in_left : {xs : List A} (ys : List A) → Memᴰ x xs → Memᴰ x (xs ++ ys)
  in_left ys (Memᴰ.head e) = Memᴰ.head e
  in_left ys (Memᴰ.tail m) = Memᴰ.tail (in_left ys m)

  in_right : (xs : List A) {ys : List A} → Memᴰ x ys → Memᴰ x (xs ++ ys)
  in_right [] m = m
  in_right (y ∷ xs) m = Memᴰ.tail (in_right xs m)

-- A datagram with chunk `seq` was handed over.
pub record Sent (file : List ℕ) (seq : ℕ) (outbox : List Datagram) : Type 0 where
  pub datagram : Datagram
  pub on_way : Memᴰ datagram outbox
  pub packet : IsDataPacket seq (chunk file seq) datagram.bytes

-- An acknowledgement of packet `seq` was handed over.
pub record Answered (seq : ℕ) (outbox : List Datagram) : Type 0 where
  pub datagram : Datagram
  pub on_way : Memᴰ datagram outbox
  pub packet : IsAckPacket seq datagram.bytes

-- Every chunk up to `next_seq` was handed over, and every packet that the receiver has was acknowledged.
pub record IsCovered (file : List ℕ) (w : Session) : Type 0 where
  pub data_sent : (seq : ℕ) → seq < w.tx.sender.next_seq → Sent file seq w.tx.outbox
  pub ack_sent : (seq : ℕ) → has w.rx.receiver seq ≡ true → Answered seq w.rx.outbox

Sent-append :
    (file : List ℕ) (seq : ℕ) (xs ys : List Datagram) → Sent file seq xs → Sent file seq (xs ++ ys)
Sent-append file seq xs ys s = record {
  datagram = s.datagram;
  on_way = in_left ys s.on_way;
  packet = s.packet;
}

Answered-append : (seq : ℕ) (xs ys : List Datagram) → Answered seq xs → Answered seq (xs ++ ys)
Answered-append seq xs ys s = record {
  datagram = s.datagram;
  on_way = in_left ys s.on_way;
  packet = s.packet;
}

chunk_datagrams-Sent :
    (via : Bool) (dest : Addr) (file : List ℕ) (lo n seq : ℕ)
    → length file ≤ max_file_size
    → lo + n ≤ chunks_of (length file)
    → lo ≤ seq
    → seq < lo + n
    → Sent file seq (chunk_datagrams via dest file lo n)
chunk_datagrams-Sent via dest file lo zero seq small h l u = absurd (omega arith)
chunk_datagrams-Sent via dest file lo (suc n) seq small h l u = elim (dec_lt lo seq) [
  | yes later ↦
      let s =
        chunk_datagrams-Sent via dest file (lo + 1) n seq small (omega arith) (omega arith)
          (omega arith) in
      record { datagram = s.datagram; on_way = Memᴰ.tail s.on_way; packet = s.packet }
  | no first ↦ record {
    datagram = _;
    on_way = Memᴰ.head refl;
    packet =
        subst (λ k. IsDataPacket seq (chunk file seq) (data_packet file k)) {x = seq} {y = lo}
          (omega arith) (data_packet-IsDataPacket file seq small (omega arith));
  }
]

module _ {damaged : Bool} {file : List ℕ} {w : Session} (g : IsGood damaged file w)
    (c : IsCovered file w) where
  send-IsCovered :
      (now : ℕ) → IsCovered file (record w { tx = (sr_sender_send_window now (w.tx)).0 })
  send-IsCovered now = record {
    data_sent = λ seq u. rw (s.outbox) (elim (dec_lt seq w.tx.sender.next_seq) [
      | yes old ↦ Sent-append file seq w.tx.outbox _ (c.data_sent seq old)
      | no new ↦
          let sent = fresh seq (omega arith) (omega (arith, s.number)) in
          record {
            datagram = sent.datagram;
            on_way = in_right w.tx.outbox sent.on_way;
            packet = sent.packet;
          }
    ]);
    ack_sent = c.ack_sent;
  }
    where
      s : Sends (w.tx) (sr_sender_send_window now (w.tx)).0 (sr_sender_send_window now (w.tx)).1
      s = sr_sender_send_window-Sends now (w.tx) g.sending g.sender_settled

      count : ℕ
      count = (sr_sender_send_window now (w.tx)).1

      in_file :
          w.tx.sender.next_seq + (sr_sender_send_window now (w.tx)).1 ≤ chunks_of (length file)
      in_file = omega (
        arith,
        s.number,
        s.valid.bounded,
        s.valid.chunks,
        s.valid.file,
        ap (λ f. length f) (s.same.file_data ∙ g.same_file),
      )

      fresh :
          (seq : ℕ)
          → w.tx.sender.next_seq ≤ seq
          → seq < w.tx.sender.next_seq + (sr_sender_send_window now (w.tx)).1
          → Sent file seq
              (datagrams w.tx.sender w.tx.sender.next_seq (sr_sender_send_window now (w.tx)).1)
      fresh seq l u =
          subst
            (λ f. Sent file seq (
              chunk_datagrams w.tx.sender.lossy_link w.tx.sender.peer_addr f w.tx.sender.next_seq
                (sr_sender_send_window now (w.tx)).1))
            (sym g.same_file)
            (chunk_datagrams-Sent w.tx.sender.lossy_link w.tx.sender.peer_addr file
              w.tx.sender.next_seq (sr_sender_send_window now (w.tx)).1 seq g.receiving.small
              in_file l u)

  check-IsCovered :
      (now : ℕ) → IsCovered file (record w { tx = (sr_sender_check_timeouts now (w.tx)).0 })
  check-IsCovered now =
      let s = (sr_sender_check_timeouts-Scans now (w.tx) g.sending g.sender_settled).0 in
      record {
        data_sent = λ seq u.
            rw (s.outbox)
              (Sent-append file seq w.tx.outbox _ (c.data_sent seq (omega (arith, s.next_seq))));
        ack_sent = c.ack_sent;
      }

  Takes-IsCovered :
      {seq : ℕ} {out : Rx}
      → seq < chunks_of (length file)
      → Takes file seq (w.rx) out
      → IsCovered file (record w { rx = out })
  Takes-IsCovered {seq} {out} inside t = record {
    data_sent = c.data_sent;
    ack_sent = λ k held. rw (t.outbox) (elim (Bool-cases (has w.rx.receiver k)) [
      | inl before ↦ Answered-append k w.rx.outbox _ (c.ack_sent k before)
      | inr new ↦
          let same : k ≡ seq = ground (arith, t.exactly k) in
          record {
            datagram = _;
            on_way = in_right w.rx.outbox (Memᴰ.head refl);
            packet =
                subst (λ a. IsAckPacket a (build_ack_packet seq)) (sym same)
                  (build_ack_packet-IsAckPacket seq (omega (arith, g.receiving.small)));
          }
    ]);
  }

  -- A datagram of the sender, in either place of the window, keeps what is covered.
  data_arrives-IsCovered :
      (d : Datagram) (rx : Rx)
      → Memᴰ d w.tx.outbox
      → sr_receiver_handle_data (w.rx) d.bytes ≡ some rx
      → IsCovered file (record w { rx = rx })
  data_arrives-IsCovered d rx m run =
      let p = All-member (CarriesChunk file) g.chunks_out m in
      let (near, far) =
        sr_receiver_handle_data-Takes file (w.rx) p.seq d.bytes g.receiving g.receiver_settled
          p.inside p.packet in
      elim (dec_lt p.seq (w.rx.receiver.base + window_size)) [
        | yes u ↦
            let (out, handled, t) = near u in
            subst (λ r. IsCovered file (record w { rx = r }))
              (some-injective _ _ (sym handled ∙ run)) (Takes-IsCovered p.inside t)
        | no n ↦
            subst (λ r. IsCovered file (record w { rx = r }))
              (some-injective _ _ (sym (far (omega arith)) ∙ run)) c
      ]

  ack_arrives-IsCovered :
      (d : Datagram)
      → Memᴰ d w.rx.outbox
      → IsCovered file (record w { tx = sr_sender_handle_ack (decode d.bytes) (w.tx) })
  ack_arrives-IsCovered d m =
      let p = All-member (CarriesAck (has w.rx.receiver)) g.acks_out m in
      let a =
        sr_sender_handle_ack_acknowledges (decode d.bytes) (w.tx) g.sending g.sender_settled
          p.packet.kind in
      record {
        data_sent = λ seq u. rw (a.outbox) (c.data_sent seq (omega (arith, a.next_seq)));
        ack_sent = c.ack_sent;
      }

round-IsCovered :
    {damaged : Bool} {file : List ℕ} {w : Session}
    → IsGood damaged file w
    → IsCovered file w
    → (now later : ℕ) → IsCovered file (after_round now later w)
round-IsCovered g c now later =
    let out = check-IsCovered (send-IsGood g now) (send-IsCovered g c now) later in
    record { data_sent = out.data_sent; ack_sent = out.ack_sent }

Step-IsCovered :
    {file : List ℕ} {w w' : Session}
    → IsGood false file w
    → IsCovered file w
    → Step false w w'
    → IsCovered file w'
Step-IsCovered g c (opens w opened now later on) =
    let out = send-IsCovered g c opened in
    round-IsCovered (opened-IsGood opened g)
      (record { data_sent = out.data_sent; ack_sent = out.ack_sent }) now later
Step-IsCovered g c (round w now later on) = round-IsCovered g c now later
Step-IsCovered g c (data_arrives w d rx m run) = data_arrives-IsCovered g c d rx m run
Step-IsCovered {file} g c (noise_arrives w packet rx noise run) =
    subst (λ r. IsCovered file (record w { rx = r }))
      (some-injective _ _ (sym (sr_receiver_handle_data_drops (w.rx) packet noise) ∙ run)) c
Step-IsCovered g c (ack_arrives w d now later on m) =
    round-IsCovered (ack_arrives-IsGood g d m) (ack_arrives-IsCovered g c d m) now later
Step-IsCovered g c (damage_arrives w packet now later on damages) =
    absurd (true-ne-false (sym damages))

pub Reach-IsCovered :
    {file : List ℕ} {w w' : Session}
    → IsGood false file w
    → IsCovered file w
    → Reach false w w'
    → IsCovered file w'
Reach-IsCovered g c here = c
Reach-IsCovered g c (next before step) =
    Step-IsCovered (Reach-IsGood g before) (Reach-IsCovered g c before) step
