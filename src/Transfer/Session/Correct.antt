-- ===== src/Transfer/Session/Correct.antt =====
-- Sessions that start from `sr_sender_init` and `sr_receiver_init` of skeleton/selective_repeat.c.
use mathlib.Core.Path.{subst}
use mathlib.Core.List.{Memᴰ}
use mathlib.Core.Option.{some-injective}
use native.Mathlib.Decide.{dec_lt}
use cpe_464_program.Base.{
  ℕ, ◌≤◌, ◌≡◌, sym, ◌∙◌, ap, refl, Bool, true, false, Option, some, List, [], arith, length,
}
use cpe_464_program.Transfer.Window.{chunks_of, max_file_size}
use cpe_464_program.Transfer.Sender.{
  sr_sender_send_window, Sender, Stats, Addr, Datagram, sr_sender_init, sr_sender_is_complete,
}
use cpe_464_program.Transfer.Sender.Invariant.{sr_sender_init-IsValid}
use cpe_464_program.Transfer.Sender.Complete.{sr_sender_is_complete_iff}
use cpe_464_program.Transfer.Receiver.{
  Receiver, Rx, sr_receiver_init, sr_receiver_handle_data, sr_receiver_is_complete,
  sr_receiver_get_file,
}
use cpe_464_program.Transfer.Receiver.Invariant.{sr_receiver_init-IsReceiving}
use cpe_464_program.Transfer.Receiver.Complete.{sr_receiver_get_file_complete}
use cpe_464_program.Transfer.Receiver.Handle.{sr_receiver_handle_data_drops}
use cpe_464_program.Transfer.Session.{
  after_round, Session, opening, active, Step, opens, round, data_arrives, noise_arrives,
  ack_arrives, damage_arrives, Reach, here, next,
}
use cpe_464_program.Transfer.Session.Invariant.{IsGood}
use cpe_464_program.Transfer.Session.Steps.{
  send-IsGood, check-IsGood, data_arrives_runs, ack_arrives-IsGood, damage_arrives-IsGood,
  with_status-IsGood,
}

-- Two ends that have just been made, with nothing on the way.
abbrev pub start : Sender → Stats → Receiver → Session
start s stats r = record {
  tx = record { sender = s; stats = stats; outbox = [] };
  rx = record { receiver = r; outbox = [] };
  status = opening;
  clock = 0;
}

after_round-IsGood :
    {damaged : Bool} {file : List ℕ} {w : Session} (now later : ℕ)
    → IsGood damaged file w
    → IsGood damaged file (after_round now later w)
after_round-IsGood now later g = with_status-IsGood _ later (check-IsGood (send-IsGood g now) later)

pub opened-IsGood :
    {damaged : Bool} {file : List ℕ} {w : Session} (opened : ℕ)
    → IsGood damaged file w
    → IsGood damaged file
        (record w { tx = (sr_sender_send_window opened (w.tx)).0; status = active; clock = opened })
opened-IsGood opened g = with_status-IsGood active opened (send-IsGood g opened)

pub Step-IsGood :
    {damaged : Bool} {file : List ℕ} {w w' : Session}
    → IsGood damaged file w
    → Step damaged w w'
    → IsGood damaged file w'
Step-IsGood g (opens w opened now later made) =
    after_round-IsGood now later (opened-IsGood opened g)
Step-IsGood g (round w now later on) = after_round-IsGood now later g
Step-IsGood {damaged} {file} g (data_arrives w d rx m run) =
    let (out, expected, good) = data_arrives_runs g d m in
    subst (λ r. IsGood damaged file (record w { rx = r })) (some-injective _ _ (sym expected ∙ run))
      good
Step-IsGood {damaged} {file} g (noise_arrives w packet rx noise run) =
    subst (λ r. IsGood damaged file (record w { rx = r }))
      (some-injective _ _ (sym (sr_receiver_handle_data_drops (w.rx) packet noise) ∙ run)) g
Step-IsGood g (ack_arrives w d now later on m) =
    after_round-IsGood now later (ack_arrives-IsGood g d m)
Step-IsGood g (damage_arrives w packet now later on damages) =
    after_round-IsGood now later (damage_arrives-IsGood g packet damages)

pub Reach-IsGood :
    {damaged : Bool} {file : List ℕ} {w w' : Session}
    → IsGood damaged file w
    → Reach damaged w w'
    → IsGood damaged file w'
Reach-IsGood g here = g
Reach-IsGood g (next before step) = Step-IsGood (Reach-IsGood g before) step

-- A complete receiver has delivered the whole file.
pub complete-get_file :
    {damaged : Bool} {file : List ℕ} {w : Session}
    → IsGood damaged file w
    → sr_receiver_is_complete w.rx.receiver ≡ true
    → sr_receiver_get_file w.rx.receiver ≡ (file, length file)
complete-get_file {file = file} {w = w} g complete =
    sr_receiver_get_file_complete file w.rx.receiver g.receiving complete

-- The receiver of a complete sender is complete.
pub both_complete :
    {file : List ℕ} {w : Session}
    → IsGood false file w
    → sr_sender_is_complete w.tx.sender ≡ true
    → sr_receiver_is_complete w.rx.receiver ≡ true
unfolding sr_receiver_is_complete
both_complete {file} {w} g complete = elim (dec_lt w.rx.receiver.base w.rx.receiver.num_chunks) [
  | yes more ↦
      let chunks : w.tx.sender.num_chunks ≡ w.rx.receiver.num_chunks = omega (
        arith,
        g.sending.chunks,
        g.receiving.chunks,
        g.sending.file,
        ap (λ f. length f) g.same_file,
      ) in
      let (sent, known) =
        (sr_sender_is_complete_iff w.tx.sender g.sending g.sender_settled).0 complete
          w.rx.receiver.base (omega arith) in
      absurd (ground (arith, g.agreed refl w.rx.receiver.base sent known, g.receiver_settled more))
  | no end ↦ ground arith
]

module _ (malloc : ℕ → Option (List ℕ)) (file memory : List ℕ) (small : length file ≤ max_file_size)
    (got : malloc (length file) ≡ some memory) (fits : length memory ≡ length file)
    (tx_fd rx_fd : ℕ) (tx_peer rx_peer : Addr) (stats : Stats) (s : Sender) (r : Receiver)
    (s_made : sr_sender_init true tx_fd (some tx_peer) (some file) (length file) true ≡ some s)
    (r_made : sr_receiver_init malloc true rx_fd
        (some rx_peer)
        (length file)
        (chunks_of (length file))
        true
      ≡ some r) where
  pub start-IsGood : (damaged : Bool) → IsGood damaged file (start s stats r)
  start-IsGood damaged =
      let (s', s_eq, valid, settled, same, base0, next0) =
        sr_sender_init-IsValid tx_fd tx_peer file small in
      let (r', r_eq, receiving, r_settled, r_base0) =
        sr_receiver_init-IsReceiving malloc rx_fd rx_peer file memory small got fits in
      let good : IsGood damaged file (start s' stats r') = record {
        sending = valid;
        sender_settled = settled;
        same_file = same;
        receiving = receiving;
        receiver_settled = r_settled;
        chunks_out = tt;
        acks_out = tt;
        agreed = λ whole seq u known. absurd (omega (arith, next0));
      } in
      subst (λ a. IsGood damaged file (start a stats r)) (some-injective _ _ (sym s_eq ∙ s_made))
        (subst (λ b. IsGood damaged file (start s' stats b))
          (some-injective _ _ (sym r_eq ∙ r_made)) good)

  -- A file of at most `max_file_size` bytes is sent from `sr_sender_init` to `sr_receiver_init`, whose
  -- `malloc` gave memory of the file's size, in rounds of the main loop, over a network that loses, repeats and
  -- reorders datagrams, damages data packets in a way the receiver's tests detect, and damages no
  -- acknowledgement. Whenever the sender's `sr_sender_is_complete` holds, `sr_receiver_is_complete`
  -- holds too, and `sr_receiver_get_file` gives exactly the file.
  pub sender_complete-file_received :
      (w : Session)
      → Reach false (start s stats r) w
      → sr_sender_is_complete w.tx.sender ≡ true
      → (sr_receiver_is_complete w.rx.receiver ≡ true)
        × (sr_receiver_get_file w.rx.receiver ≡ (file, length file))
  sender_complete-file_received w run complete =
      let good = Reach-IsGood (start-IsGood false) run in
      let received = both_complete good complete in (received, complete-get_file good received)

  -- A file of at most `max_file_size` bytes is sent from `sr_sender_init` to `sr_receiver_init`, whose
  -- `malloc` gave memory of the file's size, in rounds of the main loop, over a network that loses, repeats and
  -- reorders datagrams, damages data packets in a way the receiver's tests detect, and may bring any bytes to
  -- the sender. Whenever the receiver's `sr_receiver_is_complete` holds, `sr_receiver_get_file` gives
  -- exactly the file and its size.
  pub receiver_complete-file_received :
      (damaged : Bool) (w : Session)
      → Reach damaged (start s stats r) w
      → sr_receiver_is_complete w.rx.receiver ≡ true
      → sr_receiver_get_file w.rx.receiver ≡ (file, length file)
  receiver_complete-file_received damaged w run complete =
      complete-get_file (Reach-IsGood (start-IsGood damaged) run) complete

  -- A file of at most `max_file_size` bytes is sent from `sr_sender_init` to `sr_receiver_init`, whose
  -- `malloc` gave memory of the file's size, in rounds of the main loop, over a network that loses, repeats and
  -- reorders datagrams, damages data packets in a way the receiver's tests detect, and may bring any bytes to
  -- the sender. `sr_receiver_handle_data` handles every datagram that the sender has ever handed over, arriving
  -- now, without a copy outside an array.
  pub sent_datagram-handled :
      (damaged : Bool) (w : Session)
      → Reach damaged (start s stats r) w
      → (d : Datagram) → Memᴰ d w.tx.outbox
      → (rx : Rx) × (sr_receiver_handle_data (w.rx) d.bytes ≡ some rx)
  sent_datagram-handled damaged w run d m =
      let (out, handled, good) = data_arrives_runs (Reach-IsGood (start-IsGood damaged) run) d m in
      (out, handled)
