-- ===== src/Program/ClientMain/Rate.antt =====
-- The link of a client that is started without a loss rate.
use cpe_464_program.Base.{ℕ, ◌^◌, ◌<◌, ◌≡◌, Bool, false, List, arith, leb, length}
use cpe_464_program.Transfer.Sender.{Datagram}
use cpe_464_program.Lossy.{Double, zero_loss}
use cpe_464_program.Lossy.Loss.{zero_rate, link_run, lossy_send-IsLossOf}
use cpe_464_program.Program.ClientMain.{ClientCalls, new_link}

-- Fewer than five arguments: all datagrams reach `sendto`, in their order.
new_link_passes :
    (calls : ClientCalls) (atof : List ℕ → Double) (to_float : Double → Double)
    (argv : List (List ℕ)) (udp_fd : ℕ) (sendto : Datagram → Bool) (ds : List Datagram)
    → length argv < 5
    → calls.time < 2 ^ 64
    → (link_run sendto ds (new_link calls atof to_float argv udp_fd)).0 ≡ ds
new_link_passes calls atof to_float argv udp_fd sendto ds few small =
    let short : leb 5 (length argv) ≡ false = ground arith in
    rw short ((lossy_send-IsLossOf sendto udp_fd zero_loss calls.time ds small).all (zero_rate 0))
