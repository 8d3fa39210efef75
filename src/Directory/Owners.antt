-- ===== src/Directory/Owners.antt =====
-- What the ids of the clients at skeleton/server.c lead to.
use mathlib.Core.Bool.{false≢true}
use cpe_464_program.Base.{
  ℕ, zero, suc, ◌+◌, ◌^◌, ◌<◌, ◌≡◌, refl, sym, ◌∙◌, Bool, true, false, ◌&&◌, some, List, [], ◌∷◌,
  arith, ◌==◌, ==_iff, inl, inr, length, replicate, get_or, Bool-cases,
}
use cpe_464_program.Directory.{
  max_clients, blank_client, initial, client_at, find_index, find_client,
}
use cpe_464_program.Directory.Messages.{Event, handle_events}
use cpe_464_program.Directory.Ids.{IsNumbered, handle_events-IsNumbered}

-- The first place that passes a test, where there is one place only.
find_index_only {ℓ} :
    {A : Type ℓ} (test : A → Bool) (xs : List A) (i : ℕ) (d : A)
    → test d ≡ false
    → test (get_or xs i d) ≡ true
    → ((j : ℕ) → test (get_or xs j d) ≡ true → j ≡ i)
    → find_index test xs ≡ some i
find_index_only test [] i d fails passes only = absurd (false≢true (sym fails ∙ passes))
find_index_only test (x ∷ xs) zero d fails passes only = rw (passes, find_index) refl
find_index_only test (x ∷ xs) (suc i) d fails passes only =
    let first : test x ≡ false = not_first in
    let rest = find_index_only test xs i d fails passes (λ j p. omega (arith, only (suc j) p)) in
    rw (first, find_index, rest) refl
  where
    not_first : test x ≡ false
    not_first = elim (Bool-cases (test x)) [
      | inl first ↦ absurd (omega (arith, only 0 first))
      | inr other ↦ other
    ]

initial-IsNumbered : IsNumbered initial.clients initial.next_client_id
unfolding blank_client
initial-IsNumbered = record {
  below = λ i on. absurd (false≢true (sym (all_blank max_clients i) ∙ on));
  distinct = λ i j on_i on_j same. absurd (false≢true (sym (all_blank max_clients i) ∙ on_i));
}
  where
    all_blank : (n i : ℕ) → (get_or (replicate n blank_client) i blank_client).active ≡ false
    all_blank zero i = refl
    all_blank (suc n) zero = refl
    all_blank (suc n) (suc i) = all_blank n i

both : (a b : Bool) → (a && b) ≡ true → (a ≡ true) × (b ≡ true)
both true b e = (refl, e)
both false b e = absurd (false≢true e)

-- After any events from the server's start that leave ids to give out, a registered client has an id of its own:
-- `find_client` finds by this id the client's own slot.
pub find_client-client_at :
    (malloc : ℕ → Bool) (events : List Event) (i : ℕ)
    → length events + 1 < 2 ^ 32
    → (client_at (handle_events malloc initial events) i).active ≡ true
    → find_client
        (handle_events malloc initial events)
        (client_at (handle_events malloc initial events) i).client_id
      ≡ some i
unfolding find_client blank_client
find_client-client_at malloc events i ids on =
    let d = handle_events malloc initial events in
    let n =
      handle_events-IsNumbered malloc initial events initial-IsNumbered (omega (arith, ids)) in
    let id = (client_at d i).client_id in
    find_index_only (λ c. c.active && c.client_id == id) d.clients i blank_client refl
      (rw (on, (==_iff id id).1 refl) refl)
      (λ j passes.
        let (on_j, same) = both (client_at d j).active _ passes in
        n.distinct j i on_j on ((==_iff _ _).0 same))
