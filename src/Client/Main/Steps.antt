-- ===== src/Client/Main/Steps.antt =====
-- One round of the loop of `main` in skeleton/client.c.
use cpe_464_program.Base.{ℕ, ◌≡◌, refl, Bool, true, Option, none, some, List, ◌∷◌}
use cpe_464_program.Transfer.Sender.{Datagram}
use cpe_464_program.Client.{World}
use cpe_464_program.Client.Owner.{OpenFile}
use cpe_464_program.Client.Command.{handle_command}
use cpe_464_program.Client.Main.{Node, Ready, Poll, polled, finish_round, main_loop}

module _ (udp_fd : ℕ) (sendto : Datagram → Bool) (malloc : ℕ → Option (List ℕ))
    (sha256 : List ℕ → List ℕ) (writable : List ℕ → Option (ℕ → ℕ))
    (read_file : List ℕ → Option (List ℕ)) (fopen : List ℕ → Option OpenFile) where
  abbrev looped : List Poll → Node → Option Node
  looped polls n = main_loop udp_fd sendto malloc sha256 writable read_file fopen polls n

  abbrev RanTo : List ℕ → Node → Option (Bool × World) → Type 0
  RanTo line n out =
      handle_command udp_fd sendto malloc sha256 writable read_file line n.world ≡ out

  -- The loop after a line.
  pub looped-line :
      (r : Ready) (line : List ℕ) (polls : List Poll) (n : Node) (goes_on : Bool) (w : World)
      → n.running ≡ true
      → r.line ≡ some line
      → RanTo line n (some (goes_on, w))
      → looped (polled r ∷ polls) n
        ≡ looped polls (
            finish_round udp_fd sendto malloc sha256 writable read_file fopen r
              (record n { world = w; running = goes_on }))
  unfolding main_loop
  looped-line r line polls n goes_on w running read ran = rw (running, main_loop, read, ran) refl

  pub looped-fault :
      (r : Ready) (line : List ℕ) (polls : List Poll) (n : Node)
      → n.running ≡ true
      → r.line ≡ some line
      → RanTo line n none
      → looped (polled r ∷ polls) n ≡ none
  unfolding main_loop
  looped-fault r line polls n running read ran = rw (running, main_loop, read, ran) refl

  pub looped-no_line :
      (r : Ready) (polls : List Poll) (n : Node)
      → n.running ≡ true
      → r.line ≡ none
      → looped (polled r ∷ polls) n
        ≡ looped polls (finish_round udp_fd sendto malloc sha256 writable read_file fopen r n)
  unfolding main_loop
  looped-no_line r polls n running read = simp (main_loop, running, read)
