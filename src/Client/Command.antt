-- ===== src/Client/Command.antt =====
-- The commands of skeleton/client.c: `handle_command` and the readers of the C library that it uses. A
-- string is its bytes before the NUL.
pub mod Laws
pub mod Server
mod Tests
use cpe_464_program.Base.{
  ℕ, zero, suc, ◌+◌, ◌-◌, ◌*◌, ◌%◌, ◌^◌, Bool, true, false, not, ◌&&◌, ◌||◌, Option, none, some,
  List, [], ◌∷◌, leb, ltb, ◌==◌, if◌then◌else◌, u32, take,
}
use cpe_464_program.Transfer.Sender.{Datagram}
use cpe_464_program.Client.{World}
use cpe_464_program.Client.Dialogue.{share, list, quit}
use cpe_464_program.Client.Get.{same_bytes, get}

-- `isspace`: a space, or one of the five controls from the tabulator on.
abbrev pub is_space : ℕ → Bool
is_space c = c == 32 || (leb 9 c && leb c 13)

-- `line[strcspn(line, "\n")] = '\0'`.
abbrev pub until_newline : List ℕ → List ℕ
until_newline [] = []
until_newline (c ∷ s) = if c == 10 || c == 0 then [] else c ∷ until_newline s

-- The loops that skip white space, and the space in a format of `sscanf`.
abbrev pub skip_space : List ℕ → List ℕ
skip_space [] = []
skip_space (c ∷ s) = if is_space c then skip_space s else c ∷ s

-- `%15s` for a field of at most `width` bytes: the word, and what is behind it.
abbrev pub scan_word : ℕ → List ℕ → List ℕ × List ℕ
scan_word zero s = ([], s)
scan_word (suc width) [] = ([], [])
scan_word (suc width) (c ∷ s) =
    let (word, behind) = scan_word width s in if is_space c then ([], c ∷ s) else (c ∷ word, behind)

abbrev pub is_digit : ℕ → Bool
is_digit c = leb 48 c && leb c 57

abbrev pub is_empty : List ℕ → Bool
is_empty [] = true
is_empty (c ∷ s) = false

-- The digits at the front, and what is behind them.
abbrev pub scan_digits : List ℕ → List ℕ × List ℕ
scan_digits [] = ([], [])
scan_digits (c ∷ s) =
    let (digits, rest) = scan_digits s in if is_digit c then (c ∷ digits, rest) else ([], c ∷ s)

abbrev pub value_of : ℕ → List ℕ → ℕ
value_of value [] = value
value_of value (c ∷ s) = value_of (value * 10 + (c - 48)) s

-- The sign that `strtoul` takes: whether it is a minus, and what is behind it.
abbrev pub scan_sign : List ℕ → Bool × List ℕ
scan_sign [] = (false, [])
scan_sign (c ∷ s) = if c == 45 then (true, s) else if c == 43 then (false, s) else (false, c ∷ s)

-- An `unsigned long` of 64 bits: too large a value gives the largest, and a minus negates modulo 2 ^ 64.
abbrev pub to_ulong : Bool → ℕ → ℕ
to_ulong negative value =
    if leb (2 ^ 64) value then 2 ^ 64 - 1 else if negative then (2 ^ 64 - value) % 2 ^ 64 else value

-- `strtoul(s, &end, 10)`: `none` where `end` stays at `s`, else the value and the bytes at `end`.
unfoldable pub strtoul : List ℕ → Option (ℕ × List ℕ)
strtoul s =
    let (negative, unsigned) = scan_sign (skip_space s) in
    let (digits, rest) = scan_digits unsigned in
    if is_empty digits then none else some (to_ulong negative (value_of 0 digits), rest)

-- What a line asks for; `usage` and `invalid_id` are the messages on a missing and on a wrong argument.
pub data Command : Type 0 where
  blank unknown usage invalid_id : Command
  share_file : List ℕ → Command
  list_files : Command
  get_file : ℕ → Command
  quit_client : Command

abbrev pub word_share : List ℕ
word_share = 115 ∷ 104 ∷ 97 ∷ 114 ∷ 101 ∷ []

abbrev pub word_list : List ℕ
word_list = 108 ∷ 105 ∷ 115 ∷ 116 ∷ []

abbrev pub word_get : List ℕ
word_get = 103 ∷ 101 ∷ 116 ∷ []

abbrev pub word_quit : List ℕ
word_quit = 113 ∷ 117 ∷ 105 ∷ 116 ∷ []

-- The argument of `share`, without the spaces in front.
abbrev pub share_argument : List ℕ → Command
share_argument arg =
    if is_empty arg
    then usage
    else if is_empty (skip_space arg)
    then usage
    else share_file (skip_space arg)

-- The argument of `get`: a number alone, which is cut to 32 bits.
abbrev pub get_argument : List ℕ → Command
get_argument arg = if is_empty arg then usage else elim (strtoul arg) [
  | none ↦ invalid_id
  | some (value, rest) ↦ if is_empty rest then get_file (u32 value) else invalid_id
]

-- The tests on the word and its argument, in their order.
abbrev pub choose : List ℕ → List ℕ → Command
choose cmd arg =
    if same_bytes cmd word_share
    then share_argument arg
    else if is_empty arg && same_bytes cmd word_list
    then list_files
    else if same_bytes cmd word_get
    then get_argument arg
    else if is_empty arg && same_bytes cmd word_quit
    then quit_client
    else unknown

-- The line as `handle_command` reads it; a line has no second newline, so `%511[^\n]` takes all it may.
unfoldable pub parse_command : List ℕ → Command
parse_command line =
    let p = skip_space (until_newline line) in
    if is_empty p
    then blank
    else let (cmd, rest) = scan_word 15 p in choose cmd (take 511 (skip_space rest))

-- The files, the digest and the system's calls that the commands use.
module _ (udp_fd : ℕ) (sendto : Datagram → Bool) (malloc : ℕ → Option (List ℕ))
    (sha256 : List ℕ → List ℕ) (writable : List ℕ → Option (ℕ → ℕ))
    (read_file : List ℕ → Option (List ℕ)) where
  -- `if (res != 0) { quit(tcp_sock); running = 0; }`; the Boolean is `running`.
  abbrev pub finish {ℓ} : {A : Type ℓ} → Option A × World → Bool × World
  finish (some a, w) = (true, w)
  finish (none, w) = (false, quit w)

  abbrev pub has_memory : ℕ → Bool
  has_memory n = elim (malloc n) [ none ↦ false | some memory ↦ true ]

  -- What a command does: `none` is a copy outside an array.
  abbrev pub run_command : Command → World → Option (Bool × World)
  run_command blank w = some (true, w)
  run_command unknown w = some (true, w)
  run_command usage w = some (true, w)
  run_command invalid_id w = some (true, w)
  run_command (share_file name) w = some (finish (share read_file sha256 name w))
  run_command list_files w = some (finish (list has_memory w))
  run_command (get_file file_id) w = elim (get udp_fd sendto malloc sha256 writable file_id w) [
    | none ↦ none
    | some out ↦ some (finish out)
  ]
  run_command quit_client w = some (false, quit w)

  unfoldable pub handle_command : List ℕ → World → Option (Bool × World)
  handle_command line w = run_command (parse_command line) w
