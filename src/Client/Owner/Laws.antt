-- ===== src/Client/Owner/Laws.antt =====
-- The owner's side of the main loop of skeleton/client.c: the opening exchange, and when a transfer ends.
use native.Mathlib.Nat.{le_refl}
use mathlib.Core.Path.{ap₂}
use cpe_464_program.Base.{
  ℕ, ◌+◌, ◌-◌, ◌/◌, ◌^◌, ◌≤◌, ◌<◌, ◌≡◌, refl, sym, ◌∙◌, ap, Bool, true, false, Option, some, List,
  [], ◌∷◌, ◌++◌, arith, ltb, ◌==◌, ==_iff, u32, length, length-take, take, drop, get_or, take-all,
  drop-drop,
}
use cpe_464_program.Protocol.Udp.{decode, be32, udp_request_file, udp_file_start, chunk_size}
use cpe_464_program.Protocol.Udp.Laws.{be32-drop}
use cpe_464_program.Protocol.Tcp.{put32}
use cpe_464_program.Transfer.Window.{chunks_of, max_file_size}
use cpe_464_program.Transfer.Sender.{Sender, Addr, Datagram, sr_sender_init, sr_sender_send_window}
use cpe_464_program.Transfer.Sender.Invariant.{sr_sender_init-IsValid}
use cpe_464_program.Shares.{blank_offer, find_shared_file_by_id}
use cpe_464_program.Client.Get.{same_bytes, accept_start, build_request}
use cpe_464_program.Client.Get.Opening.{
  IsOpening, opening_packet-IsOpening, accept_start_lem, same_bytes_refl,
}
use cpe_464_program.Client.Owner.{
  Owner, OpenFile, requested, build_start, with_transfer, start_transfer, on_request, on_datagram,
}

module _ (file_id : ℕ) (hash : List ℕ) (id_fits : file_id < 2 ^ 32)
    (hash_fits : length hash ≡ 32) where
  build_request-IsOpening :
      IsOpening udp_request_file 36 (put32 file_id (take 32 hash)) (build_request file_id hash)
  unfolding build_request
  build_request-IsOpening =
      opening_packet-IsOpening udp_request_file 36 (put32 file_id (take 32 hash)) (omega arith)
        (omega arith)

  pub requested_found :
      (o : Owner) (k : ℕ)
      → find_shared_file_by_id o.shares file_id ≡ some k
      → (get_or o.shares.table k blank_offer).hash ≡ hash
      → requested o (build_request file_id hash) ≡ some (get_or o.shares.table k blank_offer)
  unfolding requested
  requested_found o k found same =
      let packet = build_request file_id hash in
      let p = build_request-IsOpening in
      let all_of : take 32 hash ≡ hash = take-all 32 hash (omega (arith, hash_fits)) in
      let long : ltb (length packet) 52 ≡ false =
        ground (arith, p.size, length-take 32 hash, hash_fits) in
      let declared : ((decode packet).data_len == 36) ≡ true = (==_iff _ _).1 p.len in
      let id : be32 packet 16 ≡ file_id =
        be32-drop 16 packet ∙ ap (λ b. be32 b 0) p.behind ∙ omega arith in
      let digest : take 32 (drop 20 packet) ≡ hash =
        ap (take 32) (sym (drop-drop 16 4 packet) ∙ ap (drop 4) p.behind)
        ∙ ap (take 32) all_of
        ∙ all_of in
      let matches : same_bytes (get_or o.shares.table k blank_offer).hash (take 32 (drop 20 packet))
          ≡ true =
        ap₂ same_bytes same digest ∙ same_bytes_refl hash in
      let at : find_shared_file_by_id o.shares (be32 packet 16) ≡ some k =
        ap (find_shared_file_by_id o.shares) id ∙ found in
      rw (long, requested, declared, at, matches) refl

pub start_accepted :
    (owner : Addr) (size : ℕ)
    → size ≤ max_file_size
    → accept_start owner (record { source = owner; bytes = build_start size })
      ≡ some (some (size, chunks_of size))
unfolding build_start
start_accepted owner size small =
    let words = put32 (u32 size) (put32 (u32 ((size + chunk_size - 1) / chunk_size)) []) in
    let first : u32 size ≡ size = omega arith in
    let second : u32 ((size + chunk_size - 1) / chunk_size) ≡ chunks_of size = omega arith in
    accept_start_lem owner (build_start size) (u32 size)
      (u32 ((size + chunk_size - 1) / chunk_size))
      (opening_packet-IsOpening udp_file_start 8 words (omega arith) (omega arith)) (omega arith)
      (omega arith)
    ∙ ap₂ (λ a b. some (some (a, b))) first second

pub length-build_start : (size : ℕ) → length (build_start size) ≡ 24
unfolding build_start
length-build_start size =
    (opening_packet-IsOpening udp_file_start 8
      (put32 (u32 size) (put32 (u32 ((size + chunk_size - 1) / chunk_size)) [])) (omega arith)
      (omega arith)).size

-- The owner of a file of at most `max_file_size` bytes, which it offers with its id and digest and which
-- is on disk, gets the request that `get` builds, and its calls succeed. Then it confirms to the requester,
-- makes the sender of exactly this file, and has sent the first window; and the confirmation, coming from the
-- owner's address, is accepted by `get` with the file's size and number of chunks.
pub opening_exchange :
    (udp_fd : ℕ) (fopen : List ℕ → Option OpenFile) (sendto : Datagram → Bool) (malloc : ℕ → Bool)
    (now file_id k : ℕ) (hash file : List ℕ) (requester owner : Addr) (o : Owner)
    → file_id < 2 ^ 32
    → length hash ≡ 32
    → length file ≤ max_file_size
    → find_shared_file_by_id o.shares file_id ≡ some k
    → (get_or o.shares.table k blank_offer).hash ≡ hash
    → fopen (get_or o.shares.table k blank_offer).file_name
      ≡ some (record { size = length file; contents = file })
    → sendto (record { via_link = false; dest = requester; bytes = build_start (length file) })
      ≡ true
    → malloc (length file) ≡ true
    → (s : Sender) × (sr_sender_init true udp_fd (some requester) (some file) (length file) true
        ≡ some s)
      × (on_datagram udp_fd fopen sendto malloc now
            (record { source = requester; bytes = build_request file_id hash })
            o
          ≡ (
            true,
            with_transfer
                (record o {
                  sent =
                      o.sent
                      ++ (record {
                        via_link = false;
                        dest = requester;
                        bytes = build_start (length file);
                      }
                          ∷ []);
                })
                (sr_sender_send_window now (record { sender = s; stats = o.stats; outbox = [] })).0,
          ))
      × (accept_start owner (record { source = owner; bytes = build_start (length file) })
          ≡ some (some (length file, chunks_of (length file))))
unfolding on_datagram on_request start_transfer build_start
opening_exchange udp_fd fopen sendto malloc now file_id k hash file requester owner o id_fits
      hash_fits small found same opened sends memory =
    let packet = build_request file_id hash in
    let p = build_request-IsOpening file_id hash id_fits hash_fits in
    let (s, made, valid, settled, file_same, base0, next0) =
      sr_sender_init-IsValid udp_fd requester file small in
    let long : ltb (length packet) 16 ≡ false = ground (arith, p.size) in
    let kind : ((decode packet).msg_type == udp_request_file) ≡ true = (==_iff _ _).1 p.kind in
    let asked = requested_found file_id hash id_fits hash_fits o k found same in
    let whole : take (length file) file ≡ file = take-all (length file) file (le_refl _) in
    let counted : (length (take (length file) file) == length file) ≡ true =
      (==_iff _ _).1 (ap (λ b. length b) whole) in
    let size : u32 (length file) ≡ length file = omega arith in
    let init : sr_sender_init true udp_fd (some requester) (some (take (length file) file))
          (u32 (length file)) true
        ≡ some s =
      ap₂ (λ b n. sr_sender_init true udp_fd (some requester) (some b) n true) whole size ∙ made in
    (
      s,
      made,
      rw
          (
            long, on_datagram, kind, on_request, asked, opened, sends, start_transfer, memory,
            counted, init,
          )
          refl,
      start_accepted owner (length file) small,
    )
