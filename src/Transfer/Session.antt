-- ===== src/Transfer/Session.antt =====
-- A sender and a receiver of skeleton/selective_repeat.c joined by a network, as the main loop and
-- `get` of skeleton/client.c drive them. Every datagram that one end has handed over can reach the other
-- at any time: never (a loss, by the link or the network), once, several times, and in any order. A damaged
-- datagram is any bytes at the sender, which tests no checksum, and bytes that fail the tests at the receiver.
-- Each round of the loop of an active transfer ends by sending the window and checking the timeouts, which may
-- give the transfer up. A session is one transfer: no request for another replaces it.
pub mod Invariant
pub mod Steps
pub mod Correct
pub mod Coverage
pub mod Quiet
pub mod Live
pub mod Advance
pub mod Finish
pub mod Progress
use mathlib.Core.List.{Memᴰ}
use cpe_464_program.Base.{ℕ, ◌≡◌, Option, none, some, Bool, true, false, List, if◌then◌else◌}
use cpe_464_program.Protocol.Udp.{decode}
use cpe_464_program.Transfer.Sender.{
  Datagram, Sender, Tx, sr_sender_send_window, sr_sender_handle_ack, sr_sender_check_timeouts,
  sr_sender_is_complete,
}
use cpe_464_program.Transfer.Receiver.{Rx, is_intact, sr_receiver_handle_data}

-- The sender's transfer: made, and nothing sent yet; `transfer_active`; given up after too many retries; done.
pub data Status : Type 0 where
  opening active aborted finished : Status

-- `clock` is the time at which the timeouts were last checked.
pub record Session : Type 0 where
  pub tx : Tx
  pub rx : Rx
  pub status : Status
  pub clock : ℕ

-- What a round of the main loop makes of `transfer_active`, from the result of the timeout check.
abbrev pub status_after : Sender → Option ℕ → Status
status_after s none = aborted
status_after s (some retransmissions) = if sr_sender_is_complete s then finished else active

-- The end of a round of the main loop: the window is sent at `now`, and the timeouts are checked at `later`.
abbrev pub after_round : ℕ → ℕ → Session → Session
after_round now later w =
    let tx1 = (sr_sender_send_window now (w.tx)).0 in
    let (tx2, res) = sr_sender_check_timeouts later tx1 in
    record w { tx = tx2; status = status_after tx2.sender res; clock = later }

-- A step is a round of the sender's main loop or a datagram at the receiver. `damaged` says whether datagrams
-- to the sender may be damaged.
pub data Step (damaged : Bool) : Session → Session → Type 0 where
  -- the round that makes the transfer, with the first `sr_sender_send_window(&global_sender)`
  opens :
      (w : Session) (opened now later : ℕ)
      → w.status ≡ opening
      → Step damaged w (
          after_round now later (record w {
            tx = (sr_sender_send_window opened (w.tx)).0;
            status = active;
            clock = opened;
          }))
  -- a round that brings no acknowledgement
  round :
      (w : Session) (now later : ℕ) → w.status ≡ active → Step damaged w (after_round now later w)
  -- a data packet reaches `sr_receiver_handle_data`
  data_arrives :
      (w : Session) (d : Datagram) (rx : Rx)
      → Memᴰ d w.tx.outbox
      → sr_receiver_handle_data (w.rx) d.bytes ≡ some rx
      → Step damaged w (record w { rx = rx })
  -- a packet that fails the receiver's tests on its bytes, as one damaged on the way, reaches it
  noise_arrives :
      (w : Session) (packet : List ℕ) (rx : Rx)
      → is_intact packet ≡ false
      → sr_receiver_handle_data (w.rx) packet ≡ some rx
      → Step damaged w (record w { rx = rx })
  -- a round in which an acknowledgement reaches `sr_sender_handle_ack`
  ack_arrives :
      (w : Session) (d : Datagram) (now later : ℕ)
      → w.status ≡ active
      → Memᴰ d w.rx.outbox
      → Step damaged w
          (after_round now later (record w { tx = sr_sender_handle_ack (decode d.bytes) (w.tx) }))
  -- a round in which any other bytes reach it
  damage_arrives :
      (w : Session) (packet : List ℕ) (now later : ℕ)
      → w.status ≡ active
      → damaged ≡ true
      → Step damaged w
          (after_round now later (record w { tx = sr_sender_handle_ack (decode packet) (w.tx) }))

pub data Reach (damaged : Bool) (w : Session) : Session → Type 0 where
  here : Reach damaged w w
  next : {u v : Session} → Reach damaged w u → Step damaged u v → Reach damaged w v
