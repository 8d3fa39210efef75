-- ===== src/Transfer/Session/Live.antt =====
-- The times of a session of skeleton/selective_repeat.c's sender, which skeleton/client.c's main loop drives.
use cpe_464_program.Base.{
  ℕ, ◌≡◌, refl, sym, ◌∙◌, Bool, true, false, Option, none, some, List, Option-cases, Bool-cases,
  inl, inr, true-ne-false, ap,
}
use cpe_464_program.Transfer.Sender.{
  Sender, Tx, sr_sender_send_window, sr_sender_check_timeouts, sr_sender_is_complete,
}
use cpe_464_program.Transfer.Sender.Timeout.{sr_sender_check_timeouts-Scans}
use cpe_464_program.Transfer.Session.{
  Session, Status, opening, active, aborted, finished, status_after, after_round, Step, opens,
  round, data_arrives, noise_arrives, ack_arrives, damage_arrives, Reach, here, next,
}
use cpe_464_program.Transfer.Session.Invariant.{IsGood}
use cpe_464_program.Transfer.Session.Steps.{send-IsGood, ack_arrives-IsGood, damage_arrives-IsGood}
use cpe_464_program.Transfer.Session.Correct.{opened-IsGood, Reach-IsGood}
use cpe_464_program.Transfer.Session.Quiet.{IsQuiet, Scans-IsQuiet}

-- Nothing is sent before the transfer is open, and an active transfer has nothing timed out at the time at
-- which the loop last looked.
pub record IsLive (w : Session) : Type 0 where
  pub unsent : w.status ≡ opening → w.tx.sender.next_seq ≡ 0
  pub quiet : w.status ≡ active → IsQuiet w.clock w.tx.sender

abbrev is_opening : Status → Bool
is_opening opening = true
is_opening active = false
is_opening aborted = false
is_opening finished = false

abbrev is_active : Status → Bool
is_active opening = false
is_active active = true
is_active aborted = false
is_active finished = false

never_opening : (s : Sender) (res : Option ℕ) → is_opening (status_after s res) ≡ false
never_opening s none = refl
never_opening s (some n) = elim (Bool-cases (sr_sender_is_complete s)) [
  | inl done ↦ rw done refl
  | inr going ↦ rw going refl
]

none_inactive : (s : Sender) (res : Option ℕ) → res ≡ none → is_active (status_after s res) ≡ false
none_inactive s res gone = rw gone refl

after_round-IsLive :
    {damaged : Bool} {file : List ℕ} {w : Session} (now later : ℕ)
    → IsGood damaged file w
    → IsLive (after_round now later w)
after_round-IsLive {damaged = damaged} {file = file} {w = w} now later g = record {
  unsent = λ e. absurd (true-ne-false (sym (ap is_opening e) ∙ never_opening out.0.sender out.1));
  quiet = λ e. elim (Option-cases out.1) [
    | inl gone ↦
        absurd (true-ne-false (sym (ap is_active e) ∙ none_inactive out.0.sender out.1 gone))
    | inr (count, goes_on) ↦
        Scans-IsQuiet later count mid.sending.sent
          (sr_sender_check_timeouts-Scans later (sr_sender_send_window now (w.tx)).0 mid.sending
            mid.sender_settled).0
          goes_on
  ];
}
  where
    out : Tx × Option ℕ
    out = sr_sender_check_timeouts later (sr_sender_send_window now (w.tx)).0

    mid : IsGood damaged file (record w { tx = (sr_sender_send_window now (w.tx)).0 })
    mid = send-IsGood g now

Step-IsLive :
    {damaged : Bool} {file : List ℕ} {w w' : Session}
    → IsGood damaged file w
    → IsLive w
    → Step damaged w w'
    → IsLive w'
Step-IsLive g live (opens w opened now later made) =
    after_round-IsLive now later (opened-IsGood opened g)
Step-IsLive g live (round w now later on) = after_round-IsLive now later g
Step-IsLive g live (data_arrives w d rx m run) = record { unsent = live.unsent; quiet = live.quiet }
Step-IsLive g live (noise_arrives w packet rx noise run) = record {
  unsent = live.unsent;
  quiet = live.quiet;
}
Step-IsLive g live (ack_arrives w d now later on m) =
    after_round-IsLive now later (ack_arrives-IsGood g d m)
Step-IsLive g live (damage_arrives w packet now later on damages) =
    after_round-IsLive now later (damage_arrives-IsGood g packet damages)

pub Reach-IsLive :
    {damaged : Bool} {file : List ℕ} {w w' : Session}
    → IsGood damaged file w
    → IsLive w
    → Reach damaged w w'
    → IsLive w'
Reach-IsLive g live here = live
Reach-IsLive g live (next before step) =
    Step-IsLive (Reach-IsGood g before) (Reach-IsLive g live before) step
