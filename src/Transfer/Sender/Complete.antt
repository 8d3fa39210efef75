-- ===== src/Transfer/Sender/Complete.antt =====
-- `sr_sender_is_complete` of skeleton/selective_repeat.c against the window.
use cpe_464_program.Base.{ℕ, ◌-◌, ◌<◌, ◌≡◌, ◌↔◌, true, arith}
use native.Mathlib.Decide.{dec_lt}
use cpe_464_program.Transfer.Window.{count_from-le, count_from-lt}
use cpe_464_program.Transfer.Sender.{Sender, sr_sender_is_complete}
use cpe_464_program.Transfer.Sender.Invariant.{acked_at, IsValid, IsSettled}
use cpe_464_program.Transfer.Sender.Mark.{done}

-- A packet that waits for its acknowledgement is missing from the count.
chunks_acked-lt :
    (s : Sender) → IsValid s → IsSettled s → s.base < s.next_seq → s.chunks_acked < s.next_seq
chunks_acked-lt s v settled more = omega (
  arith,
  v.counted,
  count_from-lt (acked_at s.window) s.base (s.next_seq - s.base) (omega arith) (settled more),
)

-- In every state between two calls, `sr_sender_is_complete` holds exactly when every chunk of the file
-- has been sent and acknowledged.
pub sr_sender_is_complete_iff :
    (s : Sender)
    → IsValid s
    → IsSettled s
    → (sr_sender_is_complete s ≡ true)
      ↔ ((seq : ℕ) → seq < s.num_chunks → (seq < s.next_seq) × (done s seq ≡ true))
unfolding sr_sender_is_complete
sr_sender_is_complete_iff s v settled = (
  (λ complete seq u. elim (dec_lt s.base s.next_seq) [
    | yes more ↦ absurd (ground (arith, chunks_acked-lt s v settled more, v.bounded))
    | no all_acked ↦ ground (
      arith,
      v.counted,
      v.sent,
      v.bounded,
      count_from-le (acked_at s.window) s.base (s.next_seq - s.base),
    )
  ]),
  (λ all. elim (dec_lt s.base s.num_chunks) [
    | yes more ↦ let (sent, known) = all s.base more in absurd (ground (arith, settled sent))
    | no end ↦ ground (arith, v.counted)
  ]),
)
