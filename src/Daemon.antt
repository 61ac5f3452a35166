-- ===== src/Daemon.antt =====
-- udev daemon/example.cpp: the serial numbers that the udev daemon answers with. What the calls of
-- the socket return is an argument.
pub mod Tokens
use storing_devices_logs_tfm.Base.{
  ℕ, zero, suc, ◌+◌, ◌==◌, ltb, if◌then◌else◌, Bool, true, false, List, [], ◌∷◌, ◌++◌, Option, none,
  some, Bytes, text, length, Outcome, done, fault, uninitialised, bad_index, ◌>>=◌,
}
use storing_devices_logs_tfm.Regex.{c_str}
use storing_devices_logs_tfm.Scsi.{has_end}

abbrev pub udev_socket_path : Bytes
udev_socket_path = text "/run/udev/control"

-- `sizeof` counts the zero at the end.
abbrev pub udev_request : Bytes
udev_request = text "get_property block:* ID_TYPE=disk ID_SERIAL_SHORT" ++ 0 ∷ []

-- The answers: `sendto` is asked with the message and the path, and says whether its result is not
-- negative; `recv` gives the bytes received, 1024 at most, or a negative result: `none`.
pub record Peer : Type 0 where
  pub socket : Bool
  pub sendto : Bytes → Bytes → Bool
  pub recv : Option Bytes

-- The string in `udev_response`. Behind the bytes received the array is not initialised.
unfoldable pub response_text : Bytes → Outcome Bytes
unfolding has_end
response_text received =
    if has_end received
    then done (c_str received)
    else if ltb (length received) 1024
    then fault uninitialised
    else fault bad_index

-- `strtok` passes over the delimiters,
unfoldable pub skip_delimiters : ℕ → Bytes → Bytes
skip_delimiters d [] = []
skip_delimiters d (x ∷ s) = let rest = skip_delimiters d s in if x == d then rest else x ∷ s

-- returns the bytes up to the next one,
unfoldable pub token_of : ℕ → Bytes → Bytes
token_of d [] = []
token_of d (x ∷ s) = let token = x ∷ token_of d s in if x == d then [] else token

-- and goes on behind it.
unfoldable pub behind_token : ℕ → Bytes → Bytes
behind_token d [] = []
behind_token d (x ∷ s) = let rest = behind_token d s in if x == d then s else rest

first_token : ℕ → Bytes → Option (Bytes × Bytes)
first_token d [] = none
first_token d (x ∷ s) = some (token_of d (x ∷ s), behind_token d (x ∷ s))

-- A token and the text for the next call.
unfoldable pub strtok : ℕ → Bytes → Option (Bytes × Bytes)
unfolding skip_delimiters first_token token_of behind_token
strtok d s = first_token d (skip_delimiters d s)

-- The loop, with a bound on its rounds.
unfoldable pub serial_numbers : ℕ → Bytes → List Bytes
unfolding strtok
serial_numbers zero s = []
serial_numbers (suc fuel) s = elim (strtok b'\n' s) [
  | none ↦ []
  | some (serial_number, rest) ↦ serial_number ∷ serial_numbers fuel rest
]

unfoldable pub printed_lines : List Bytes → Bytes
printed_lines [] = []
printed_lines (line ∷ lines) = line ++ (b'\n' ∷ printed_lines lines)

-- The status of the program and its standard output.
unfoldable pub request_serials : Peer → Outcome (ℕ × Bytes)
unfolding response_text serial_numbers printed_lines
request_serials p =
    if p.socket
    then if p.sendto udev_request udev_socket_path
      then elim p.recv [
        | none ↦ done (1, [])
        | some received ↦ response_text received >>= λ udev_response.
            done (0, printed_lines (serial_numbers (suc (length udev_response)) udev_response))
      ]
      else done (1, [])
    else done (1, [])
