-- ===== src/Lossy/Tests.antt =====
-- A link that drops about half of the datagrams.
use cpe_464_program.Base.{ℕ, ◌*◌, ◌%◌, ◌^◌, ◌≡◌, refl, Bool, true, false, List, [], ◌∷◌, arith}
use cpe_464_program.Transfer.Sender.{Datagram}
use cpe_464_program.Lossy.{
  Double, nan, infinite, finite, clamp, zero_loss, one_loss, xs64, lossy_init, lossy_send,
}
use cpe_464_program.Lossy.Loss.{IsLossOf, link_run, lossy_send-IsLossOf}

abbrev half : Double
half = finite false 1 1

abbrev numbered : ℕ → Datagram
numbered n = record {
  via_link = true;
  dest = record { ip = 16777343; port = 9000 };
  bytes = n ∷ [];
}

abbrev batch : List Datagram
batch = numbered 1 ∷ numbered 2 ∷ numbered 3 ∷ numbered 4 ∷ []

abbrev sendto : Datagram → Bool
sendto d = true

first_draw : xs64 1 ≡ (33554433 * 2685821657736338717 % 2 ^ 64, 33554433)
unfolding xs64
first_draw = refl

clamped :
    (clamp (finite true 3 1) ≡ zero_loss)
    × (clamp (finite false 3 1) ≡ one_loss)
    × (clamp (infinite true) ≡ zero_loss)
    × (clamp nan ≡ nan)
clamped = (refl, refl, refl, refl)

-- `time(NULL)` gives the seed; 0 is replaced.
zero_seed : (lossy_init 3 half 0).rng ≡ 88172645463393265
unfolding lossy_init
zero_seed = refl

half_lost : (link_run sendto batch (lossy_init 3 half 1)).0 ≡ numbered 2 ∷ numbered 3 ∷ []
unfolding lossy_init lossy_send xs64
half_lost = refl

lossy_send-IsLossOf_example :
    IsLossOf half batch
      (link_run sendto batch (lossy_init 3 half 1)).0
      (link_run sendto batch (lossy_init 3 half 1)).1
lossy_send-IsLossOf_example = lossy_send-IsLossOf sendto 3 half 1 batch (omega arith)
