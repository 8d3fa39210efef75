-- ===== src/Transfer/Session/Finish.antt =====
-- A session between skeleton/selective_repeat.c's two ends is driven to the end of its transfer, packet by packet.
use cpe_464_program.Base.{
  ℕ, zero, suc, ◌+◌, ◌≤◌, ◌≡◌, ◌⊎◌, inl, inr, ap, true, false, List, arith, length,
}
use cpe_464_program.Transfer.Window.{chunks_of}
use cpe_464_program.Transfer.Sender.{sr_sender_is_complete}
use cpe_464_program.Transfer.Session.{
  Session, opening, active, finished, opens, round, Reach, here, next,
}
use cpe_464_program.Transfer.Session.Invariant.{IsGood}
use cpe_464_program.Transfer.Session.Correct.{opened-IsGood, Reach-IsGood}
use cpe_464_program.Transfer.Session.Coverage.{IsCovered, Reach-IsCovered}
use cpe_464_program.Transfer.Session.Quiet.{send-IsQuiet, unsent-IsQuiet}
use cpe_464_program.Transfer.Session.Live.{IsLive, Reach-IsLive}
use cpe_464_program.Transfer.Session.Advance.{Reach-append, IsDriven, round_quiet, advance}

-- A run to the end of the transfer.
pub record Completes (w : Session) : Type 0 where
  pub last : Session
  pub run : Reach false w last
  pub status : last.status ≡ finished
  pub complete : sr_sender_is_complete last.tx.sender ≡ true

Completes-after : {w v : Session} → Reach false w v → Completes v → Completes w
Completes-after before rest = record {
  last = rest.last;
  run = Reach-append before rest.run;
  status = rest.status;
  complete = rest.complete;
}

-- What holds of a session along its runs.
record Holds (file : List ℕ) (w : Session) : Type 0 where
  good : IsGood false file w
  covered : IsCovered file w
  live : IsLive w

Reach-Holds : {file : List ℕ} {w v : Session} → Holds file w → Reach false w v → Holds file v
Reach-Holds h run = record {
  good = Reach-IsGood h.good run;
  covered = Reach-IsCovered h.good h.covered run;
  live = Reach-IsLive h.good h.live run;
}

-- Each acknowledged packet leaves less to do.
finish :
    {file : List ℕ} (n : ℕ) (w : Session)
    → Holds file w
    → IsDriven w
    → chunks_of (length file) ≤ w.tx.sender.base + n
    → Completes w
finish n w h (inl (over, complete)) left = record {
  last = w;
  run = here;
  status = over;
  complete = complete;
}
finish zero w h (inr (on, more)) left =
    let g = h.good in
    absurd (
      omega (
        arith,
        left,
        more,
        g.sending.bounded,
        g.sending.chunks,
        g.sending.file,
        ap (λ f. length f) g.same_file,
      ))
finish (suc n) w h (inr (on, more)) left =
    let a = advance h.good h.covered (h.live.quiet on) on more in
    Completes-after a.run
      (finish n a.later (Reach-Holds h a.run) a.driven (omega (arith, left, a.forward)))

-- A transfer that is not over can be completed.
pub completes :
    {file : List ℕ} (w : Session)
    → IsGood false file w
    → IsCovered file w
    → IsLive w
    → (w.status ≡ opening) ⊎ (w.status ≡ active)
    → Completes w
completes {file} w g c live (inr on) =
    let h : Holds file w = record { good = g; covered = c; live = live } in
    let run = next here (round w w.clock w.clock on) in
    Completes-after run (
      finish (chunks_of (length file)) _ (Reach-Holds h run)
        (round_quiet w.clock w g (live.quiet on)).driven (omega arith))
completes {file} w g c live (inl unopened) =
    let h : Holds file w = record { good = g; covered = c; live = live } in
    let run = next here (opens w w.clock w.clock w.clock unopened) in
    let quiet =
      send-IsQuiet w.clock (w.tx) g.sending
        (unsent-IsQuiet w.clock w.tx.sender (live.unsent unopened)) in
    Completes-after run (
      finish (chunks_of (length file)) _ (Reach-Holds h run)
        (round_quiet w.clock _ (opened-IsGood w.clock g) quiet).driven (omega arith))
