-- ===== src/Transfer/Receiver/Handle.antt =====
-- `sr_receiver_handle_data` of skeleton/selective_repeat.c as a whole.
use native.Mathlib.Decide.{ℕ_discrete, dec_lt}
use native.Mathlib.Nat.{le_refl}
use cpe_464_program.Base.{
  ℕ, ◌+◌, ◌≤◌, ◌<◌, ◌≡◌, refl, ◌∙◌, true, false, some, List, [], ◌∷◌, arith, Bool-cases, inl, inr,
  ◌||◌, ◌==◌, length, u32, leb, ltb, lt→ltb, ◌++◌,
}
use cpe_464_program.Protocol.Udp.{window_size}
use cpe_464_program.Transfer.Packet.{build_ack_packet}
use cpe_464_program.Transfer.Packet.Laws.{IsDataPacket}
use cpe_464_program.Transfer.Window.{chunk, chunks_of}
use cpe_464_program.Transfer.Receiver.{
  Receiver, Rx, buffer_packet, accept_packet, is_intact, sr_receiver_send_ack,
  sr_receiver_handle_data,
}
use cpe_464_program.Transfer.Receiver.Invariant.{received_at, IsReceiving, IsSettled, has}
use cpe_464_program.Transfer.Receiver.Deliver.{deliver-Delivers}
use cpe_464_program.Transfer.Receiver.Buffer.{
  payload, buffered, buffer_packet-eq, buffered-IsReceiving, has-buffered,
}

-- The outcome of packet `a` of the file at a receiver that takes it.
pub record Takes (file : List ℕ) (a : ℕ) (rx out : Rx) : Type 0 where
  pub valid : IsReceiving file out.receiver
  pub settled : IsSettled out.receiver
  pub peer_addr : out.receiver.peer_addr ≡ rx.receiver.peer_addr
  pub lossy_link : out.receiver.lossy_link ≡ rx.receiver.lossy_link
  pub forward : rx.receiver.base ≤ out.receiver.base
  pub exactly : (seq : ℕ) → has out.receiver seq ≡ (has rx.receiver seq || seq == a)
  pub outbox :
      out.outbox
      ≡ rx.outbox
        ++ (record {
          via_link = rx.receiver.lossy_link;
          dest = rx.receiver.peer_addr;
          bytes = build_ack_packet a;
        }
            ∷ [])

module _ (file : List ℕ) (rx : Rx) (v : IsReceiving file rx.receiver)
    (settled : IsSettled rx.receiver) (a : ℕ) where
  open rx use {receiver as r}

  -- A packet that was delivered before is acknowledged again.
  old : a < r.base → Takes file a rx (sr_receiver_send_ack rx a)
  unfolding sr_receiver_send_ack
  old below = record {
    valid = v;
    settled = settled;
    peer_addr = refl;
    lossy_link = refl;
    forward = le_refl _;
    exactly = λ seq. elim (ℕ_discrete seq a) [ yes e ↦ rw e (ground arith) | no ne ↦ ground arith ];
    outbox = refl;
  }

  delivered :
      (r' : Receiver)
      → IsReceiving file r'
      → r'.peer_addr ≡ r.peer_addr
      → r'.lossy_link ≡ r.lossy_link
      → r'.base ≡ r.base
      → ((seq : ℕ) → has r' seq ≡ (has r seq || seq == a))
      → buffer_packet r a (length (chunk file a)) (chunk file a) ≡ some r'
      → (out : Rx) × (accept_packet rx a (length (chunk file a)) (chunk file a) ≡ some out)
        × Takes file a rx out
  unfolding accept_packet sr_receiver_send_ack
  delivered r' v' peer link base exactly e =
      let (t, run, d) = deliver-Delivers file r' v' in
      (
        record {
          receiver = t;
          outbox =
              rx.outbox
              ++ (record {
                via_link = r'.lossy_link;
                dest = r'.peer_addr;
                bytes = build_ack_packet a;
              }
                  ∷ []);
        },
        rw (e, run, accept_packet),
        record {
          valid = d.valid;
          settled = d.settled;
          peer_addr = d.peer_addr ∙ peer;
          lossy_link = d.lossy_link ∙ link;
          forward = omega (arith, d.forward, base);
          exactly = λ seq. d.exactly seq ∙ exactly seq;
          outbox = rw (peer, link);
        },
      )

  duplicate :
      received_at r.window a ≡ true
      → buffer_packet r a (length (chunk file a)) (chunk file a) ≡ some r
  unfolding buffer_packet
  duplicate there = rw (there, buffer_packet)

  has_already :
      r.base ≤ a
      → a < r.base + window_size
      → received_at r.window a ≡ true
      → (seq : ℕ) → has r seq ≡ (has r seq || seq == a)
  has_already low high there seq = elim (ℕ_discrete seq a) [
    | yes e ↦ rw e (ground arith)
    | no ne ↦ ground arith
  ]

  within_window :
      r.base ≤ a
      → a < r.base + window_size
      → a < r.num_chunks
      → (out : Rx) × (accept_packet rx a (length (chunk file a)) (chunk file a) ≡ some out)
        × Takes file a rx out
  unfolding payload
  within_window low high inside = elim (Bool-cases (received_at r.window a)) [
    | inl there ↦ delivered r v refl refl refl (has_already low high there) (duplicate there)
    | inr fresh ↦
        delivered (buffered file r v a low high inside fresh)
          (buffered-IsReceiving file r v a low high inside fresh) refl refl refl
          (has-buffered file r v a low high inside fresh)
          (buffer_packet-eq file r v a low high inside fresh)
  ]

-- A packet that fails a test on its own bytes changes nothing and is not acknowledged: one shorter than
-- a header, with a checksum that does not match, of another kind, or shorter than its payload.
pub sr_receiver_handle_data_drops :
    (rx : Rx) (packet : List ℕ)
    → is_intact packet ≡ false
    → sr_receiver_handle_data rx packet ≡ some rx
unfolding sr_receiver_handle_data
sr_receiver_handle_data_drops rx packet h = rw (h, sr_receiver_handle_data)

-- A built packet of the file passes the tests.
pub is_intact_of_IsDataPacket :
    (a : ℕ) (payload packet : List ℕ) → IsDataPacket a payload packet → is_intact packet ≡ true
unfolding is_intact
is_intact_of_IsDataPacket a payload packet p = ground (arith, p.size, p.matches, p.kind, p.len)

-- A packet of the file, on both sides of the window's end.
pub sr_receiver_handle_data-Takes :
    (file : List ℕ) (rx : Rx) (a : ℕ) (packet : List ℕ)
    → IsReceiving file rx.receiver
    → IsSettled rx.receiver
    → a < chunks_of (length file)
    → IsDataPacket a (chunk file a) packet
    → (a < rx.receiver.base + window_size
        → (out : Rx) × (sr_receiver_handle_data rx packet ≡ some out) × Takes file a rx out)
      × (rx.receiver.base + window_size ≤ a → sr_receiver_handle_data rx packet ≡ some rx)
unfolding sr_receiver_handle_data
sr_receiver_handle_data-Takes file rx a packet v settled inside p = (
  taken,
  λ far. rw (p.seq, intact, known, not_old (omega arith), too_far far, sr_receiver_handle_data),
)
  where
    intact : is_intact packet ≡ true
    intact = is_intact_of_IsDataPacket a (chunk file a) packet p

    known : leb rx.receiver.num_chunks a ≡ false
    known = ground (arith, v.chunks)

    not_old : rx.receiver.base ≤ a → ltb a rx.receiver.base ≡ false
    not_old h = ground arith

    not_far :
        a < rx.receiver.base + window_size → leb (u32 (rx.receiver.base + window_size)) a ≡ false
    not_far h = ground (arith, v.bounded, v.chunks, v.small)

    too_far :
        rx.receiver.base + window_size ≤ a → leb (u32 (rx.receiver.base + window_size)) a ≡ true
    too_far h = ground (arith, v.bounded, v.chunks, v.small)

    taken :
        a < rx.receiver.base + window_size
        → (out : Rx) × (sr_receiver_handle_data rx packet ≡ some out) × Takes file a rx out
    taken near = elim (dec_lt a rx.receiver.base) [
      | yes below ↦ (
        sr_receiver_send_ack rx a,
        rw (p.seq, intact, known, sr_receiver_handle_data) (rw (lt→ltb _ _ below)),
        old file rx v settled a below,
      )
      | no above ↦
          let (out, run, t) =
            within_window file rx v settled a (omega arith) near (omega (arith, v.chunks)) in
          (
            out,
            rw (p.seq, p.len, p.body, intact, known, sr_receiver_handle_data)
                (rw (not_old (omega arith), not_far near) run),
            t,
          )
    ]

-- A receiver between two packets of a file gets data packet `a` of the file, below the end of its
-- window, which it may have had before. No copy leaves its array. The receiver then has exactly packet
-- `a` besides those it had, has delivered all it could, and has acknowledged `a` once.
pub sr_receiver_handle_data_accepts :
    (file : List ℕ) (rx : Rx) (a : ℕ) (packet : List ℕ)
    → IsReceiving file rx.receiver
    → IsSettled rx.receiver
    → a < chunks_of (length file)
    → IsDataPacket a (chunk file a) packet
    → a < rx.receiver.base + window_size
    → (out : Rx) × (sr_receiver_handle_data rx packet ≡ some out) × Takes file a rx out
sr_receiver_handle_data_accepts file rx a packet v settled inside p near =
    (sr_receiver_handle_data-Takes file rx a packet v settled inside p).0 near
