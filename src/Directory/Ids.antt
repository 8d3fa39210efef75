-- ===== src/Directory/Ids.antt =====
-- The ids of the clients that are registered at skeleton/server.c.
use mathlib.Core.Path.{subst}
use mathlib.Core.Bool.{false≢true}
use cpe_464_program.Base.{
  ℕ, zero, suc, ◌+◌, ◌^◌, ◌≤◌, ◌<◌, ◌≡◌, refl, sym, ◌∙◌, ap, Bool, true, false, not, Option, none,
  some, List, [], ◌∷◌, arith, leb, ◌⊎◌, inl, inr, u32, length, get_or, set, Bool-cases,
  Option-cases,
}
use cpe_464_program.Transfer.Sender.{Addr}
use cpe_464_program.Protocol.Tcp.{ShareFile}
use cpe_464_program.Directory.{
  Client, Directory, max_files, blank_client, client_at, find_index, remove_client,
}
use cpe_464_program.Directory.Messages.{
  handle_register, handle_share_file, accept_new_client, Event, handle_event, handle_events,
}
use cpe_464_program.Directory.Cases.{handle_event-Cases}

-- The registered clients have ids of their own, all of them given out.
pub record IsNumbered (clients : List Client) (next : ℕ) : Type 0 where
  pub below :
      (i : ℕ)
      → (get_or clients i blank_client).active ≡ true
      → (get_or clients i blank_client).client_id < next
  pub distinct :
      (i j : ℕ)
      → (get_or clients i blank_client).active ≡ true
      → (get_or clients j blank_client).active ≡ true
      → (get_or clients i blank_client).client_id ≡ (get_or clients j blank_client).client_id
      → i ≡ j

-- The place that was set, or what was there.
set_cases {ℓ} :
    {A : Type ℓ} (xs : List A) (i j : ℕ) (v d : A)
    → ((get_or (set xs i v) j d ≡ v) × (j ≡ i)) ⊎ (get_or (set xs i v) j d ≡ get_or xs j d)
set_cases [] i j v d = inr refl
set_cases (x ∷ xs) zero zero v d = inl (refl, refl)
set_cases (x ∷ xs) zero (suc j) v d = inr refl
set_cases (x ∷ xs) (suc i) zero v d = inr refl
set_cases (x ∷ xs) (suc i) (suc j) v d = elim (set_cases xs i j v d) [
  | inl (there, same) ↦ inl (there, ap suc same)
  | inr other ↦ inr other
]

abbrev old : List Client → ℕ → Client
old clients j = get_or clients j blank_client

module _ (clients : List Client) (next : ℕ) (n : IsNumbered clients next) (i : ℕ) (c : Client) where
  abbrev after : ℕ → Client
  after j = get_or (set clients i c) j blank_client

  -- What holds of an old client that is registered.
  moved_below :
      (j : ℕ) → after j ≡ old clients j → (after j).active ≡ true → (after j).client_id < next
  moved_below j same on =
      subst (λ x. x.client_id < next) (sym same) (n.below j (sym (ap (λ x. x.active) same) ∙ on))

  moved_distinct :
      (j k : ℕ)
      → after j ≡ old clients j
      → after k ≡ old clients k
      → (after j).active ≡ true
      → (after k).active ≡ true
      → (after j).client_id ≡ (after k).client_id
      → j ≡ k
  moved_distinct j k same_j same_k on_j on_k same =
      n.distinct j k (sym (ap (λ x. x.active) same_j) ∙ on_j)
        (sym (ap (λ x. x.active) same_k) ∙ on_k)
        (sym (ap (λ x. x.client_id) same_j) ∙ same ∙ ap (λ x. x.client_id) same_k)

  -- A registered client, after a place was set to one that is not.
  still : c.active ≡ false → (j : ℕ) → (after j).active ≡ true → after j ≡ old clients j
  still off j on = elim (set_cases clients i j c blank_client) [
    | inl (there, same) ↦ absurd (false≢true (sym off ∙ sym (ap (λ x. x.active) there) ∙ on))
    | inr other ↦ other
  ]

  set_off-IsNumbered : c.active ≡ false → IsNumbered (set clients i c) next
  set_off-IsNumbered off = record {
    below = λ j on. moved_below j (still off j on) on;
    distinct = λ j k on_j on_k same.
        moved_distinct j k (still off j on_j) (still off k on_k) on_j on_k same;
  }

  set_new-IsNumbered : c.client_id ≡ next → IsNumbered (set clients i c) (next + 1)
  set_new-IsNumbered newest = record {
    below = λ j on. elim (set_cases clients i j c blank_client) [
      | inl (there, same) ↦ omega (arith, ap (λ x. x.client_id) there, newest)
      | inr other ↦ omega (arith, moved_below j other on)
    ];
    distinct = λ j k on_j on_k same. elim (set_cases clients i j c blank_client) [
      | inl (there, place) ↦ elim (set_cases clients i k c blank_client) [
        | inl (there', place') ↦ place ∙ sym place'
        | inr other ↦
            absurd
              (omega (arith, ap (λ x. x.client_id) there, newest, moved_below k other on_k, same))
      ]
      | inr other ↦ elim (set_cases clients i k c blank_client) [
        | inl (there, place) ↦
            absurd
              (omega (arith, ap (λ x. x.client_id) there, newest, moved_below j other on_j, same))
        | inr other' ↦ moved_distinct j k other other' on_j on_k same
      ]
    ];
  }

-- A state after an event.
record Renumbers (d after : Directory) : Type 0 where
  numbered : IsNumbered after.clients after.next_client_id
  next : after.next_client_id ≤ d.next_client_id + 1

module _ (d : Directory) (n : IsNumbered d.clients d.next_client_id) where
  kept_ids : Renumbers d d
  kept_ids = record { numbered = n; next = omega arith }

  register-Renumbers :
      d.next_client_id + 1 < 2 ^ 32 → (i udp_port : ℕ) → Renumbers d (handle_register d i udp_port)
  unfolding handle_register
  register-Renumbers ids i udp_port =
      let next : u32 (d.next_client_id + 1) ≡ d.next_client_id + 1 = omega arith in
      record {
        numbered = rw next (set_new-IsNumbered d.clients d.next_client_id n i _ refl);
        next = omega (arith, next);
      }

  share-Renumbers : (i : ℕ) (share : ShareFile) → Renumbers d (handle_share_file d i share)
  unfolding handle_share_file
  share-Renumbers i share = elim (Bool-cases (leb max_files d.num_files)) [
    | inl full ↦ rw (full, handle_share_file) (record { numbered = n; next = omega arith })
    | inr room ↦ rw (room, handle_share_file) (record { numbered = n; next = omega arith })
  ]

  remove-Renumbers : (i : ℕ) → Renumbers d (remove_client d i)
  unfolding remove_client
  remove-Renumbers i = elim (Bool-cases (client_at d i).active) [
    | inl on ↦
        rw (on, remove_client)
          (record {
            numbered = set_off-IsNumbered d.clients d.next_client_id n i _ refl;
            next = omega arith;
          })
    | inr off ↦ rw (off, remove_client) kept_ids
  ]

  accept-Renumbers : (accepted : Option (ℕ × Addr)) → Renumbers d (accept_new_client d accepted)
  unfolding accept_new_client
  accept-Renumbers none = kept_ids
  accept-Renumbers (some (fd, addr)) =
      elim (Option-cases (find_index (λ c. not c.active) d.clients)) [
        | inl full ↦ rw (full, accept_new_client) (record { numbered = n; next = omega arith })
        | inr (i, free) ↦
            rw (free, accept_new_client)
              (record {
                numbered = set_off-IsNumbered d.clients d.next_client_id n i _ refl;
                next = omega arith;
              })
      ]

handle_event-Renumbers :
    (malloc : ℕ → Bool) (d : Directory) (e : Event)
    → IsNumbered d.clients d.next_client_id
    → d.next_client_id + 1 < 2 ^ 32
    → Renumbers d (handle_event malloc d e)
handle_event-Renumbers malloc d e n ids =
    handle_event-Cases (Renumbers d) malloc d (kept_ids d n)
      (λ i bytes. record { numbered = n; next = omega arith }) (register-Renumbers d n ids)
      (share-Renumbers d n) (remove-Renumbers d n) (accept-Renumbers d n) e

pub handle_events-IsNumbered :
    (malloc : ℕ → Bool) (d : Directory) (events : List Event)
    → IsNumbered d.clients d.next_client_id
    → d.next_client_id + length events < 2 ^ 32
    → IsNumbered
        (handle_events malloc d events).clients
        (handle_events malloc d events).next_client_id
unfolding handle_events
handle_events-IsNumbered malloc d [] n ids = n
handle_events-IsNumbered malloc d (e ∷ events) n ids =
    let f = handle_event-Renumbers malloc d e n (omega arith) in
    handle_events-IsNumbered malloc (handle_event malloc d e) events f.numbered
      (omega (arith, f.next))
