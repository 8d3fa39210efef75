-- ===== src/Client/Owner/Sound.antt =====
-- The transfer that the owner of files in skeleton/client.c serves, after any events.
use mathlib.Core.Path.{subst}
use cpe_464_program.Base.{
  ℕ, ◌≤◌, ◌≡◌, refl, ◌∙◌, ap, Bool, true, false, Option, some, List, [], ◌∷◌, ◌++◌, arith, ltb,
  ◌==◌, ==_iff, inl, inr, length, take, All, All-append, All-map, Bool-cases, Option-cases, u32,
}
use cpe_464_program.Protocol.Udp.{decode, udp_request_file, udp_ack, sizeof_udp_header}
use cpe_464_program.Transfer.Window.{max_file_size}
use cpe_464_program.Transfer.Sender.{
  Addr, Datagram, Tx, sr_sender_init, sr_sender_send_window, sr_sender_handle_ack,
  sr_sender_check_timeouts, sr_sender_is_complete,
}
use cpe_464_program.Transfer.Sender.Invariant.{sr_sender_init-IsValid}
use cpe_464_program.Client.{Arrival}
use cpe_464_program.Client.Owner.{
  Owner, OpenFile, requested, build_start, with_transfer, start_transfer, on_request, on_ack,
  on_datagram, drive_transfer, OwnerEvent, arrived, round, owner_run,
}
use cpe_464_program.Client.Owner.Invariant.{
  IsOutput, confirms, IsRunning, IsIdleOrRunning, send_window-IsRunning, check_timeouts-IsRunning,
  handle_ack-IsRunning,
}

-- All that was handed over is of some kind.
pub record IsSoundFor (P : Datagram → Type 0) (o : Owner) : Type 0 where
  pub running : IsIdleOrRunning o.transfer
  pub outputs : All P o.sent

abbrev IsSound : Owner → Type 0
IsSound o = IsSoundFor IsOutput o

module _ (P : Datagram → Type 0) (covers : (d : Datagram) → IsOutput d → P d) where
  with_transfer-IsSoundFor :
      (o : Owner) (tx : Tx) → All P o.sent → IsRunning tx → IsSoundFor P (with_transfer o tx)
  with_transfer-IsSoundFor o tx sent r = record {
    running = record { valid = r.valid; settled = r.settled; outputs = tt };
    outputs = All-append P o.sent tx.outbox sent (All-map IsOutput P tx.outbox covers r.outputs);
  }

  pub drive_transfer-IsSoundFor :
      (now later : ℕ) (o : Owner) → IsSoundFor P o → IsSoundFor P (drive_transfer now later o)
  unfolding drive_transfer
  drive_transfer-IsSoundFor now later o sound = elim (Option-cases o.transfer) [
    | inl idle ↦ rw (idle, drive_transfer) sound
    | inr (tx, busy) ↦
        let r : IsRunning tx = subst IsIdleOrRunning busy sound.running in
        let tx1 = (sr_sender_send_window now tx).0 in
        let sent = send_window-IsRunning tx r now in
        let checked = check_timeouts-IsRunning tx1 sent later in
        let driven =
          with_transfer-IsSoundFor o (sr_sender_check_timeouts later tx1).0 sound.outputs checked in
        elim (Option-cases (sr_sender_check_timeouts later tx1).1) [
          | inl exhausted ↦
              rw (busy, drive_transfer, exhausted)
                (record { running = tt; outputs = driven.outputs })
          | inr (count, counted) ↦
              elim (Bool-cases
                (sr_sender_is_complete (sr_sender_check_timeouts later tx1).0.sender)) [
                  | inl done ↦
                      rw (busy, drive_transfer, counted, done)
                        (record { running = tt; outputs = driven.outputs })
                  | inr more ↦ rw (busy, drive_transfer, counted, more) driven
                ]
        ]
  ]

  on_ack-IsSoundFor : (a : Arrival) (o : Owner) → IsSoundFor P o → IsSoundFor P (on_ack a o)
  unfolding on_ack
  on_ack-IsSoundFor a o sound = elim (Option-cases o.transfer) [
    | inl idle ↦ rw (idle, on_ack) sound
    | inr (tx, busy) ↦
        let r : IsRunning tx = subst IsIdleOrRunning busy sound.running in
        rw (busy, on_ack)
          (with_transfer-IsSoundFor o (sr_sender_handle_ack (decode a.bytes) tx) sound.outputs
            (handle_ack-IsRunning tx r (decode a.bytes)))
  ]

module _ (P : Datagram → Type 0) (covers : (d : Datagram) → IsOutput d → P d) (udp_fd : ℕ)
    (fopen : List ℕ → Option OpenFile) (sendto : Datagram → Bool) (malloc : ℕ → Bool)
    (small : (name : List ℕ) (file : OpenFile)
      → fopen name ≡ some file
      → file.size ≤ max_file_size) where
  start_transfer-IsSoundFor :
      (now : ℕ) (peer : Addr) (file : OpenFile) (o : Owner)
      → file.size ≤ max_file_size
      → IsSoundFor P o
      → IsSoundFor P (start_transfer udp_fd fopen sendto malloc now peer file o).1
  unfolding start_transfer
  start_transfer-IsSoundFor now peer file o fits sound = elim (Bool-cases (malloc file.size)) [
    | inr full ↦ rw (full, start_transfer) sound
    | inl there ↦ elim (Bool-cases (length (take file.size file.contents) == file.size)) [
      | inr short ↦ rw (there, start_transfer, short) sound
      | inl whole ↦
          let contents = take file.size file.contents in
          let size : length contents ≡ file.size = (==_iff _ _).0 whole in
          let (s, made, valid, settled, same, base0, next0) =
            sr_sender_init-IsValid udp_fd peer contents (omega (arith, size)) in
          let init : sr_sender_init true udp_fd (some peer) (some contents) (u32 file.size) true
              ≡ some s =
            ap (λ n. sr_sender_init true udp_fd (some peer) (some contents) n true)
              (omega (arith, size))
            ∙ made in
          rw (there, start_transfer, whole, init)
            (with_transfer-IsSoundFor P covers o _ sound.outputs (
              send_window-IsRunning (record { sender = s; stats = o.stats; outbox = [] })
                (record { valid = valid; settled = settled; outputs = tt }) now))
    ]
  ]

  on_request-IsSoundFor :
      (now : ℕ) (a : Arrival) (o : Owner)
      → IsSoundFor P o
      → IsSoundFor P (on_request udp_fd fopen sendto malloc now a o).1
  unfolding on_request
  on_request-IsSoundFor now a o sound = elim (Option-cases (requested o a.bytes)) [
    | inl wrong ↦ rw (wrong, on_request) sound
    | inr (file, asked) ↦ elim (Option-cases (fopen file.file_name)) [
      | inl missing ↦ rw (asked, on_request, missing) sound
      | inr (opened, there) ↦
          let confirmation : Datagram = record {
            via_link = false;
            dest = a.source;
            bytes = build_start opened.size;
          } in
          elim (Bool-cases (sendto confirmation)) [
            | inr lost ↦ rw (asked, on_request, there, lost) sound
            | inl sent ↦
                rw (asked, on_request, there, sent)
                  (start_transfer-IsSoundFor now a.source opened
                    (record o { sent = o.sent ++ (confirmation ∷ []) })
                    (small file.file_name opened there)
                    (record {
                      running = sound.running;
                      outputs =
                          All-append P o.sent _ sound.outputs
                            (covers confirmation (confirms opened.size refl), tt);
                    }))
          ]
    ]
  ]

  pub on_datagram-IsSoundFor :
      (now : ℕ) (a : Arrival) (o : Owner)
      → IsSoundFor P o
      → IsSoundFor P (on_datagram udp_fd fopen sendto malloc now a o).1
  unfolding on_datagram
  on_datagram-IsSoundFor now a o sound =
      elim (Bool-cases (ltb (length a.bytes) sizeof_udp_header)) [
        | inl short ↦ rw (short, on_datagram) sound
        | inr long ↦ elim (Bool-cases ((decode a.bytes).msg_type == udp_request_file)) [
          | inl request ↦ rw (long, on_datagram, request) (on_request-IsSoundFor now a o sound)
          | inr other ↦ elim (Bool-cases ((decode a.bytes).msg_type == udp_ack)) [
            | inl ack ↦ rw (long, on_datagram, other, ack) (on_ack-IsSoundFor P covers a o sound)
            | inr neither ↦ rw (long, on_datagram, other, neither) sound
          ]
        ]
      ]

  owner_run-IsSoundFor :
      (events : List OwnerEvent) (o : Owner)
      → IsSoundFor P o
      → IsSoundFor P (owner_run udp_fd fopen sendto malloc events o)
  unfolding owner_run
  owner_run-IsSoundFor [] o sound = sound
  owner_run-IsSoundFor (arrived now a ∷ events) o sound =
      owner_run-IsSoundFor events (on_datagram udp_fd fopen sendto malloc now a o).1
        (on_datagram-IsSoundFor now a o sound)
  owner_run-IsSoundFor (round now later ∷ events) o sound =
      owner_run-IsSoundFor events (drive_transfer now later o)
        (drive_transfer-IsSoundFor P covers now later o sound)

module _ (udp_fd : ℕ) (fopen : List ℕ → Option OpenFile) (sendto : Datagram → Bool)
    (malloc : ℕ → Bool)
    (small : (name : List ℕ) (file : OpenFile)
      → fopen name ≡ some file
      → file.size ≤ max_file_size) where
  -- Where no file that can be opened is larger than `max_file_size`, any events keep the owner sound, whatever
  -- datagrams come, whatever calls fail, and however often a new request starts another transfer:
  -- the sender of a running transfer is valid and settled, and every datagram that was handed over
  -- is a confirmation or carries a chunk of a file.
  owner_run-IsSound :
      (events : List OwnerEvent) (o : Owner)
      → IsSound o
      → IsSound (owner_run udp_fd fopen sendto malloc events o)
  owner_run-IsSound events o sound =
      owner_run-IsSoundFor IsOutput (λ d output. output) udp_fd fopen sendto malloc small events o
        sound
