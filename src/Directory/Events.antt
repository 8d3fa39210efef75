-- ===== src/Directory/Events.antt =====
-- The messages, connections and event sequences of skeleton/server.c against the invariant of its tables.
use cpe_464_program.Base.{
  ℕ, ◌+◌, ◌^◌, ◌≤◌, ◌<◌, ◌≡◌, refl, ◌∙◌, Bool, not, Option, none, some, List, [], ◌∷◌, arith, leb,
  u32, length, length-set, Bool-cases, Option-cases, inl, inr,
}
use cpe_464_program.Protocol.Tcp.{ShareFile, err_invalid_msg}
use cpe_464_program.Transfer.Sender.{Addr}
use cpe_464_program.Directory.{Directory, max_files, client_at, listed, find_index, remove_client}
use cpe_464_program.Directory.Messages.{
  send_response, error_reply, shared_entry, handle_register, handle_share_file, accept_new_client,
  process_client_message, Event, handle_event, handle_events,
}
use cpe_464_program.Directory.Cases.{process_client_message-Cases, handle_event-Cases}
use cpe_464_program.Directory.Invariant.{
  IsDirectory, remove_client-IsDirectory, remove_client-next, Ascending-append, take-set,
}

-- A state after one message: valid, and at most one file id more was given out.
pub record Follows (d after : Directory) : Type 0 where
  pub valid : IsDirectory after
  pub next : after.next_file_id ≤ d.next_file_id + 1

module _ (d : Directory) (v : IsDirectory d) (i : ℕ) where
  unchanged : Follows d d
  unchanged = record { valid = v; next = omega arith }

  send_response-Follows : (bytes : List ℕ) → Follows d (send_response d i bytes)
  send_response-Follows bytes = record {
    valid = record {
      slots = v.slots;
      entries = v.entries;
      within = v.within;
      ascending = v.ascending;
    };
    next = omega arith;
  }

  remove_client-Follows : Follows d (remove_client d i)
  remove_client-Follows = record {
    valid = remove_client-IsDirectory d i v;
    next = omega (arith, remove_client-next d i);
  }

  handle_share_file-Follows :
      (share : ShareFile) → d.next_file_id + 1 < 2 ^ 32 → Follows d (handle_share_file d i share)
  unfolding handle_share_file
  handle_share_file-Follows share ids = elim (Bool-cases (leb max_files d.num_files)) [
    | inl full ↦ rw (full, handle_share_file) (send_response-Follows (error_reply err_invalid_msg))
    | inr room ↦
        let entry = shared_entry d.next_file_id (client_at d i).client_id share in
        let small : d.num_files < length d.files = ground (arith, v.entries) in
        let next : u32 (d.next_file_id + 1) ≡ d.next_file_id + 1 = omega arith in
        rw (room, handle_share_file)
          (record {
            valid = record {
              slots = v.slots;
              entries = length-set d.files d.num_files entry ∙ v.entries;
              within = ground arith;
              ascending =
                  rw (next, take-set d.files d.num_files entry small)
                    (Ascending-append 1 d.next_file_id (listed d) entry refl v.ascending);
            };
            next = omega (arith, next);
          })
  ]

  handle_register-Follows : (udp_port : ℕ) → Follows d (handle_register d i udp_port)
  unfolding handle_register
  handle_register-Follows udp_port = record {
    valid = record {
      slots = length-set d.clients i _ ∙ v.slots;
      entries = v.entries;
      within = v.within;
      ascending = v.ascending;
    };
    next = omega arith;
  }

module _ (d : Directory) (v : IsDirectory d) where
  accept_new_client-Follows :
      (accepted : Option (ℕ × Addr)) → Follows d (accept_new_client d accepted)
  unfolding accept_new_client
  accept_new_client-Follows none = unchanged d v 0
  accept_new_client-Follows (some (fd, addr)) =
      elim (Option-cases (find_index (λ c. not c.active) d.clients)) [
        | inl full ↦
            rw (full, accept_new_client)
              (record {
                valid = record {
                  slots = v.slots;
                  entries = v.entries;
                  within = v.within;
                  ascending = v.ascending;
                };
                next = omega arith;
              })
        | inr (i, free) ↦
            rw (free, accept_new_client)
              (record {
                valid = record {
                  slots = length-set d.clients i _ ∙ v.slots;
                  entries = v.entries;
                  within = v.within;
                  ascending = v.ascending;
                };
                next = omega arith;
              })
      ]

module _ (malloc : ℕ → Bool) (d : Directory) (v : IsDirectory d)
    (ids : d.next_file_id + 1 < 2 ^ 32) where
  pub process_client_message-Follows :
      (i : ℕ) (packet : List ℕ) → Follows d (process_client_message malloc d i packet)
  process_client_message-Follows =
      process_client_message-Cases (Follows d) malloc d (unchanged d v 0)
        (λ i bytes. send_response-Follows d v i bytes)
        (λ i port. handle_register-Follows d v i port)
        (λ i share. handle_share_file-Follows d v i share ids) (λ i. remove_client-Follows d v i)
        (accept_new_client-Follows d v)

  pub handle_event-Follows : (e : Event) → Follows d (handle_event malloc d e)
  handle_event-Follows =
      handle_event-Cases (Follows d) malloc d (unchanged d v 0)
        (λ i bytes. send_response-Follows d v i bytes)
        (λ i port. handle_register-Follows d v i port)
        (λ i share. handle_share_file-Follows d v i share ids) (λ i. remove_client-Follows d v i)
        (accept_new_client-Follows d v)

-- From a state whose table is in order, any sequence of connections, messages, disconnections and
-- malformed messages that leaves file ids to give out leads to one whose tables have their sizes, whose
-- number of files is at most `max_files`, and whose files have ascending ids below the next one.
pub handle_events-IsDirectory :
    (malloc : ℕ → Bool) (d : Directory) (events : List Event)
    → IsDirectory d
    → d.next_file_id + length events < 2 ^ 32
    → IsDirectory (handle_events malloc d events)
unfolding handle_events
handle_events-IsDirectory malloc d [] v ids = v
handle_events-IsDirectory malloc d (e ∷ events) v ids =
    let f = handle_event-Follows malloc d v (omega arith) e in
    handle_events-IsDirectory malloc (handle_event malloc d e) events f.valid
      (omega (arith, f.next))
