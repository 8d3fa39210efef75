-- ===== src/Lossy.antt =====
-- skeleton/lossy_udp.c: the link that drops datagrams at random. `lossy_recv` is in Client.Get.
pub mod Bits
pub mod Generator
pub mod Loss
mod Tests
use Prim.Native.Nat.{bit_xor}
use cpe_464_program.Base.{
  ℕ, ◌*◌, ◌/◌, ◌%◌, ◌^◌, Bool, true, false, not, List, [], ◌∷◌, ltb, ◌==◌, if◌then◌else◌,
}
use cpe_464_program.Transfer.Sender.{Datagram}

-- A `double`: `finite negative n k` is n / 2 ^ k with a sign.
pub data Double : Type 0 where
  nan : Double
  infinite : Bool → Double
  finite : Bool → ℕ → ℕ → Double

-- `loss < 0.0`
abbrev below_zero : Double → Bool
below_zero nan = false
below_zero (infinite negative) = negative
below_zero (finite negative n k) = if negative then ltb 0 n else false

-- `loss > 1.0`
abbrev above_one : Double → Bool
above_one nan = false
above_one (infinite negative) = not negative
above_one (finite negative n k) = if negative then false else ltb (2 ^ k) n

-- `(double)m / (double)(1ULL<<53) < loss`: both conversions and the division are exact for m < 2 ^ 53.
abbrev pub draw_below : ℕ → Double → Bool
draw_below m nan = false
draw_below m (infinite negative) = not negative
draw_below m (finite negative n k) = if negative then false else ltb (m * 2 ^ k) (n * 2 ^ 53)

abbrev pub zero_loss : Double
zero_loss = finite false 0 0

abbrev pub one_loss : Double
one_loss = finite false 1 0

-- `lossy_link_t`
pub record Link : Type 0 where
  pub fd : ℕ
  pub loss : Double
  pub rng : ℕ

-- The three shifts of `xs64`, on 64 bits.
abbrev pub shift_first : ℕ → ℕ
shift_first x = bit_xor x (x / 2 ^ 12)

abbrev pub shift_second : ℕ → ℕ
shift_second x = bit_xor x (x * 2 ^ 25 % 2 ^ 64)

abbrev shift_third : ℕ → ℕ
shift_third x = bit_xor x (x / 2 ^ 27)

-- `xs64`: the value, and the new state.
unfoldable pub xs64 : ℕ → ℕ × ℕ
xs64 s = let x = shift_third (shift_second (shift_first s)) in (x * 2685821657736338717 % 2 ^ 64, x)

abbrev pub clamp : Double → Double
clamp loss =
    let loss1 = if below_zero loss then zero_loss else loss in
    if above_one loss1 then one_loss else loss1

unfoldable pub lossy_init : ℕ → Double → ℕ → Link
lossy_init fd loss seed = record {
  fd = fd;
  loss = clamp loss;
  rng = if seed == 0 then 88172645463393265 else seed;
}

-- `lossy_send`, with what `sendto` returns: whether the result is not -1, the datagrams that `sendto` was given,
-- and the link.
unfoldable pub lossy_send : (Datagram → Bool) → Datagram → Link → Bool × List Datagram × Link
lossy_send sendto d l =
    let (r, rng) = xs64 l.rng in
    let l' : Link = record l { rng = rng } in
    if draw_below (r / 2 ^ 11) l.loss then (true, [], l') else (sendto d, d ∷ [], l')
