-- ===== src/Client/Get/Whole.antt =====
-- The whole of `get` in skeleton/client.c: the server's answer, the opening exchange, the transfer and saving.
use cpe_464_program.Base.{
  ℕ, ◌+◌, ◌≤◌, ◌≡◌, refl, ◌∙◌, ap, Bool, true, false, Option, none, some, List, [], ◌∷◌, ◌++◌,
  arith, length, take, take-all, All, ◌⊎◌, inl, inr, Option-cases,
}
use cpe_464_program.Protocol.Udp.{chunk_size, sizeof_udp_header}
use cpe_464_program.Transfer.Window.{max_file_size}
use cpe_464_program.Transfer.Sender.{Datagram}
use cpe_464_program.Transfer.Receiver.{Receiver, Rx}
use cpe_464_program.Transfer.Receiver.Invariant.{
  IsReceiving, IsSettled, sr_receiver_init-IsReceiving,
}
use cpe_464_program.Client.{World, Arrival}
use cpe_464_program.Client.Dialogue.{Location, locate}
use cpe_464_program.Client.Get.{
  build_request, Transfer, complete, failed, faulted, receive_loop, save, peer_of, send_datagram,
  lossy_recv, init_transfer, open_transfer, run_transfer, get,
}
use cpe_464_program.Client.Get.Loop.{IsHonest, IsReceived, receive_loop-IsReceived}
use cpe_464_program.Client.Get.Save.{save_complete, save_shut}
use cpe_464_program.Client.Get.Feed.{IsFeed, receive_loop-Ends}
use cpe_464_program.Client.Dialogue.Laws.{continue-some}
use cpe_464_program.Client.Owner.{build_start}
use cpe_464_program.Client.Owner.Laws.{start_accepted, length-build_start}
use cpe_464_program.Client.Get.Keeps.{locate-Keeps}

module _ (udp_fd : ℕ) (sendto : Datagram → Bool) (malloc : ℕ → Option (List ℕ))
    (sha256 : List ℕ → List ℕ) (writable : List ℕ → Option (ℕ → ℕ)) (file_id : ℕ) (w : World)
    (loc : Location) (file memory : List ℕ) (arrivals : List (Option Arrival))
    (located : (locate file_id w).0 ≡ some loc) (small : length file ≤ max_file_size)
    (got : malloc (length file) ≡ some memory) (fits : length memory ≡ length file)
    (sends : sendto
        (record { via_link = false; dest = peer_of loc; bytes = build_request file_id loc.hash })
      ≡ true)
    (arrived : w.arrivals
      ≡ some (record { source = peer_of loc; bytes = build_start (length file) }) ∷ arrivals) where
  record Opens : Type 0 where
    world : World
    receiver : Receiver
    opened :
        open_transfer udp_fd sendto malloc sha256 writable file_id w
        ≡ (some (some (loc, receiver)), world)
    same_arrivals : world.arrivals ≡ arrivals
    same_saved : world.saved ≡ w.saved
    receiving : IsReceiving file receiver
    settled : IsSettled receiver

  opens : Opens
  unfolding open_transfer
  opens =
      let peer = peer_of loc in
      let (r, init, receiving, settled, base0) =
        sr_receiver_init-IsReceiving malloc udp_fd peer file memory small got fits in
      let u = (locate file_id w).1 in
      let start = build_start (length file) in
      let whole : take (sizeof_udp_header + chunk_size) start ≡ start =
        take-all 1040 start (omega (arith, length-build_start (length file))) in
      let queue : u.arrivals ≡ some (record { source = peer; bytes = start }) ∷ arrivals =
        ap (λ v. v.arrivals) (locate-Keeps file_id w) ∙ arrived in
      let request : Datagram = record {
        via_link = false;
        dest = peer;
        bytes = build_request file_id loc.hash;
      } in
      let asked : World = record u { sent = u.sent ++ (request ∷ []) } in
      let answered : World = record asked { arrivals = arrivals } in
      let a : Arrival = record { source = peer; bytes = start } in
      let send_returns : send_datagram udp_fd sendto malloc sha256 writable request u
          ≡ (some tt, asked) =
        rw (sends, send_datagram) refl in
      let recv_returns : lossy_recv asked ≡ (some a, answered) =
        rw (queue, lossy_recv)
          (ap (λ b. (some (record { source = peer; bytes = b }), answered)) whole) in
      let accepted = start_accepted peer (length file) small in
      record {
        world = answered;
        receiver = r;
        opened =
            continue-some _ (ap (λ l. (l, u)) located)
            ∙ continue-some _ send_returns
            ∙ continue-some _ recv_returns
            ∙ continue-some _ (ap (λ s. (s, answered)) accepted)
            ∙ rw (init, init_transfer) refl;
        same_arrivals = refl;
        same_saved = ap (λ v. v.saved) (locate-Keeps file_id w);
        receiving = receiving;
        settled = settled;
      }

  -- `get` of a file that the server locates, from an owner that confirms it with its size. Its packets reach
  -- the client among arrivals that bring all chunks in their order at least once, with anything from
  -- elsewhere, damaged packets, repeated packets and packets of other chunks between them; the client has
  -- memory, `sendto` sends the request, the server's digest is the file's, `fopen` opens its name, and
  -- `fwrite` writes all that it is given. Then `get` makes no copy outside an array, returns 0, and has saved exactly the file under the
  -- server's name, and nothing else.
  pub get_saves :
      IsFeed file (peer_of loc) 0 arrivals
      → sha256 file ≡ loc.hash
      → (fwrite : ℕ → ℕ) → writable loc.filename ≡ some fwrite
      → fwrite (length file) ≡ length file
      → (after : World) × (get udp_fd sendto malloc sha256 writable file_id w
          ≡ some (some tt, after))
        × (after.saved ≡ w.saved ++ (record { name = loc.filename; contents = file } ∷ []))
  unfolding get
  get_saves feed digest fwrite can_write writes_all =
      let o = opens in
      let rx0 : Rx = record { receiver = o.receiver; outbox = [] } in
      let e =
        receive_loop-Ends file (peer_of loc) 0 arrivals rx0 o.receiving o.settled (omega arith)
          feed in
      let ended : receive_loop (peer_of loc) o.world.arrivals rx0 ≡ complete e.rx e.rest =
        ap (λ l. receive_loop (peer_of loc) l rx0) o.same_arrivals ∙ e.ended in
      let before : World = record o.world {
        arrivals = e.rest;
        sent = o.world.sent ++ e.rx.outbox;
      } in
      let whole : take (fwrite (length file)) file ≡ file =
        ap (λ n. take n file) writes_all ∙ take-all (length file) file (omega arith) in
      let saved =
        save_complete sha256 writable loc e.rx.receiver before file fwrite e.received digest
          can_write
        ∙ ap
            (λ c. (
              some tt,
              record before {
                saved = before.saved ++ (record { name = loc.filename; contents = c } ∷ []);
              },
            ))
            whole in
      (
        record before {
          saved = before.saved ++ (record { name = loc.filename; contents = file } ∷ []);
        },
        ap (run_transfer udp_fd sendto malloc sha256 writable) o.opened
            ∙ rw (ended, run_transfer) (ap some saved),
        ap (λ l. l ++ (record { name = loc.filename; contents = file } ∷ [])) o.same_saved,
      )

  -- What `get` can come to.
  abbrev IsOutcome : Option (Option (Unit {0}) × World) → Type 0
  IsOutcome out =
      (res : Option (Unit {0})) × (after : World) × (out ≡ some (res, after))
      × ((after.saved ≡ w.saved)
          ⊎ ((fwrite : ℕ → ℕ) × (writable loc.filename ≡ some fwrite)
              × (res ≡ some tt)
              × (after.saved
                  ≡ w.saved
                    ++ (record { name = loc.filename; contents = take (fwrite (length file)) file }
                        ∷ []))))

  outcome :
      (o : Opens) (t : Transfer)
      → IsReceived file t
      → sha256 file ≡ loc.hash
      → receive_loop (peer_of loc) o.world.arrivals (record { receiver = o.receiver; outbox = [] })
        ≡ t
      → IsOutcome (get udp_fd sendto malloc sha256 writable file_id w)
  unfolding get
  outcome o faulted absurdity digest ran = absurd absurdity
  outcome o (failed rx rest) received digest ran = (
    none,
    record o.world { arrivals = rest; sent = o.world.sent ++ rx.outbox },
    ap (run_transfer udp_fd sendto malloc sha256 writable) o.opened ∙ rw (ran, run_transfer) refl,
    inl o.same_saved,
  )
  outcome o (complete rx rest) received digest ran =
      let before : World = record o.world { arrivals = rest; sent = o.world.sent ++ rx.outbox } in
      let run = ap (run_transfer udp_fd sendto malloc sha256 writable) o.opened in
      let out = save sha256 writable loc rx.receiver before in
      elim (Option-cases (writable loc.filename)) [
        | inl shut ↦ (
          out.0,
          out.1,
          run ∙ rw (ran, run_transfer) refl,
          inl (
              ap (λ v. v.saved) (save_shut sha256 writable loc rx.receiver before shut)
              ∙ o.same_saved),
        )
        | inr (fwrite, can_write) ↦
            let saved =
              save_complete sha256 writable loc rx.receiver before file fwrite received digest
                can_write in
            (
              out.0,
              out.1,
              run ∙ rw (ran, run_transfer) refl,
              inr (
                fwrite,
                can_write,
                ap (λ x. x.0) saved,
                ap (λ x. x.1.saved) saved
                    ∙ ap
                        (λ l.
                          l
                          ++ (record {
                            name = loc.filename;
                            contents = take (fwrite (length file)) file;
                          }
                              ∷ []))
                        o.same_saved,
              ),
            )
      ]

  -- `get` of a file that the server locates, from an owner that confirms it with its size; the client has
  -- memory for it, `sendto` sends the request, and the server's digest is the file's. As long as the owner's
  -- address sends packets of the file and damaged packets only (other addresses send anything), `get` makes
  -- no copy outside an array, however many packets come, in whatever order, and either it saves nothing, or
  -- it returns 0 and has saved under the server's name as much of exactly the file as `fwrite` wrote: all of
  -- it, unless `fwrite` fell short.
  pub get_saves_or_not :
      All (IsHonest file (peer_of loc)) arrivals
      → sha256 file ≡ loc.hash
      → (res : Option (Unit {0})) × (after : World) × (get udp_fd sendto malloc sha256 writable
            file_id w
          ≡ some (res, after))
        × ((after.saved ≡ w.saved)
            ⊎ ((fwrite : ℕ → ℕ) × (writable loc.filename ≡ some fwrite)
                × (res ≡ some tt)
                × (after.saved
                    ≡ w.saved
                      ++ (record {
                        name = loc.filename;
                        contents = take (fwrite (length file)) file;
                      }
                          ∷ []))))
  get_saves_or_not honest digest =
      let rx0 : Rx = record { receiver = opens.receiver; outbox = [] } in
      let t = receive_loop (peer_of loc) arrivals rx0 in
      outcome opens t
        (receive_loop-IsReceived file (peer_of loc) arrivals rx0 opens.receiving opens.settled
          honest)
        digest (ap (λ l. receive_loop (peer_of loc) l rx0) opens.same_arrivals)
