-- ===== src/Client/Owner/Table.antt =====
-- The transfer that the owner of a file serves leaves the table of offered files alone.
use cpe_464_program.Base.{
  ℕ, ◌≡◌, refl, Bool, true, false, Option, some, List, [], ◌∷◌, ◌++◌, ltb, ◌==◌, inl, inr, length,
  take, Bool-cases, Option-cases, u32,
}
use cpe_464_program.Protocol.Udp.{decode, udp_request_file, udp_ack, sizeof_udp_header}
use cpe_464_program.Transfer.Sender.{
  Addr, Datagram, sr_sender_init, sr_sender_send_window, sr_sender_check_timeouts,
  sr_sender_is_complete,
}
use cpe_464_program.Client.{Arrival}
use cpe_464_program.Client.Owner.{
  Owner, OpenFile, requested, build_start, start_transfer, on_request, on_ack, on_datagram,
  drive_transfer,
}

pub drive_transfer-shares :
    (now later : ℕ) (o : Owner) → (drive_transfer now later o).shares ≡ o.shares
unfolding drive_transfer
drive_transfer-shares now later o = elim (Option-cases o.transfer) [
  | inl idle ↦ rw (idle, drive_transfer) refl
  | inr (tx, busy) ↦
      let tx1 = (sr_sender_send_window now tx).0 in
      elim (Option-cases (sr_sender_check_timeouts later tx1).1) [
        | inl exhausted ↦ rw (busy, drive_transfer, exhausted) refl
        | inr (count, counted) ↦
            elim (Bool-cases
              (sr_sender_is_complete (sr_sender_check_timeouts later tx1).0.sender)) [
                | inl done ↦ rw (busy, drive_transfer, counted, done) refl
                | inr more ↦ rw (busy, drive_transfer, counted, more) refl
              ]
      ]
]

on_ack-shares : (a : Arrival) (o : Owner) → (on_ack a o).shares ≡ o.shares
unfolding on_ack
on_ack-shares a o = elim (Option-cases o.transfer) [
  | inl idle ↦ rw (idle, on_ack) refl
  | inr (tx, busy) ↦ rw (busy, on_ack) refl
]

module _ (udp_fd : ℕ) (fopen : List ℕ → Option OpenFile) (sendto : Datagram → Bool)
    (malloc : ℕ → Bool) where
  start_transfer-shares :
      (now : ℕ) (peer : Addr) (file : OpenFile) (o : Owner)
      → (start_transfer udp_fd fopen sendto malloc now peer file o).1.shares ≡ o.shares
  unfolding start_transfer
  start_transfer-shares now peer file o = elim (Bool-cases (malloc file.size)) [
    | inr full ↦ rw (full, start_transfer) refl
    | inl there ↦ elim (Bool-cases (length (take file.size file.contents) == file.size)) [
      | inr short ↦ rw (there, start_transfer, short) refl
      | inl whole ↦
          elim (Option-cases (
            sr_sender_init true udp_fd (some peer) (some (take file.size file.contents))
              (u32 file.size) true)) [
                | inl no_memory ↦ rw (there, start_transfer, whole, no_memory) refl
                | inr (s, made) ↦ rw (there, start_transfer, whole, made) refl
              ]
    ]
  ]

  on_request-shares :
      (now : ℕ) (a : Arrival) (o : Owner)
      → (on_request udp_fd fopen sendto malloc now a o).1.shares ≡ o.shares
  unfolding on_request
  on_request-shares now a o = elim (Option-cases (requested o a.bytes)) [
    | inl wrong ↦ rw (wrong, on_request) refl
    | inr (file, asked) ↦ elim (Option-cases (fopen file.file_name)) [
      | inl missing ↦ rw (asked, on_request, missing) refl
      | inr (opened, there) ↦
          let confirmation : Datagram = record {
            via_link = false;
            dest = a.source;
            bytes = build_start opened.size;
          } in
          elim (Bool-cases (sendto confirmation)) [
            | inr lost ↦ rw (asked, on_request, there, lost) refl
            | inl sent ↦
                rw (asked, on_request, there, sent)
                  (start_transfer-shares now a.source opened
                    (record o { sent = o.sent ++ (confirmation ∷ []) }))
          ]
    ]
  ]

  pub on_datagram-shares :
      (now : ℕ) (a : Arrival) (o : Owner)
      → (on_datagram udp_fd fopen sendto malloc now a o).1.shares ≡ o.shares
  unfolding on_datagram
  on_datagram-shares now a o = elim (Bool-cases (ltb (length a.bytes) sizeof_udp_header)) [
    | inl short ↦ rw (short, on_datagram) refl
    | inr long ↦ elim (Bool-cases ((decode a.bytes).msg_type == udp_request_file)) [
      | inl request ↦ rw (long, on_datagram, request) (on_request-shares now a o)
      | inr other ↦ elim (Bool-cases ((decode a.bytes).msg_type == udp_ack)) [
        | inl ack ↦ rw (long, on_datagram, other, ack) (on_ack-shares a o)
        | inr neither ↦ rw (long, on_datagram, other, neither) refl
      ]
    ]
  ]
