-- ===== src/Transfer/Receiver/Complete.antt =====
-- `sr_receiver_is_complete` and `sr_receiver_get_file` of skeleton/selective_repeat.c.
use native.Mathlib.Nat.{le_refl}
use cpe_464_program.Base.{ℕ, ◌≡◌, sym, ◌∙◌, ap, true, List, arith, length, take, take-all}
use cpe_464_program.Transfer.Receiver.{Receiver, sr_receiver_is_complete, sr_receiver_get_file}
use cpe_464_program.Transfer.Receiver.Invariant.{prefix, IsReceiving}

-- A complete receiver has delivered the whole file.
pub sr_receiver_get_file_complete :
    (file : List ℕ) (r : Receiver)
    → IsReceiving file r
    → sr_receiver_is_complete r ≡ true
    → sr_receiver_get_file r ≡ (file, length file)
unfolding sr_receiver_is_complete sr_receiver_get_file
sr_receiver_get_file_complete file r v complete =
    ap (λ b. (b, r.file_size)) same_file ∙ ap (λ n. (file, n)) v.size
  where
    whole : prefix file r.base ≡ length file
    whole = ground (arith, complete, v.chunks)

    same_file : r.file_buffer ≡ file
    same_file =
        sym (take-all (length file) r.file_buffer (omega (arith, v.buffer)))
        ∙ ap (λ k. take k r.file_buffer) (sym whole)
        ∙ v.delivered
        ∙ ap (λ k. take k file) whole
        ∙ take-all (length file) file (le_refl _)
