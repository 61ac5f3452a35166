-- ===== src/Daemon/Tokens.antt =====
-- The tokens of strtok against the lines of a text.
use storing_devices_logs_tfm.Base.{
  ℕ, zero, suc, ◌≤◌, ◌<◌, ◌==◌, if◌then◌else◌, Bool-cases, inl, inr, true, false, ◌≡◌, refl, ◌∙◌,
  arith, List, [], ◌∷◌, some, Bytes, ltb, done, fault, uninitialised, bad_index, length,
}
use storing_devices_logs_tfm.Mounts.{split, begin_token}
use storing_devices_logs_tfm.Regex.{c_str}
use storing_devices_logs_tfm.Scsi.{has_end}
use storing_devices_logs_tfm.Daemon.{
  skip_delimiters, token_of, behind_token, first_token, strtok, serial_numbers, Peer, udev_request,
  udev_socket_path, request_serials, response_text, printed_lines,
}

-- The pieces that are not empty.
abbrev pub non_empty : List Bytes → List Bytes
non_empty [] = []
non_empty ([] ∷ l) = non_empty l
non_empty ((x ∷ s) ∷ l) = (x ∷ s) ∷ non_empty l

skip_split : (d : ℕ) (s : Bytes) → non_empty (split (skip_delimiters d s) d) ≡ non_empty (split s d)
unfolding skip_delimiters split
skip_split d [] = refl
skip_split d (x ∷ s) = ground (arith, skip_split d s)

skip_length : (d : ℕ) (s : Bytes) → length (skip_delimiters d s) ≤ length s
unfolding skip_delimiters
skip_length d [] = omega arith
skip_length d (x ∷ s) = ground (arith, skip_length d s)

behind_length : (d : ℕ) (s : Bytes) → length (behind_token d s) ≤ length s
unfolding behind_token
behind_length d [] = omega arith
behind_length d (x ∷ s) = ground (arith, behind_length d s)

-- A text that starts with no delimiter is its first token and what stands behind it.
split-token :
    (d x : ℕ) (s : Bytes)
    → (x == d) ≡ false
    → split (x ∷ s) d ≡ token_of d (x ∷ s) ∷ split (behind_token d (x ∷ s)) d
unfolding split token_of behind_token begin_token
split-token d x [] h = ground (arith, h)
split-token d x (y ∷ s) h = elim (Bool-cases (y == d)) [
  | inl e ↦ ground (arith, h, e)
  | inr e ↦ ground (arith, h, e, split-token d y s e)
]

-- What is skipped ends at a byte that is no delimiter.
skip_stops : (d : ℕ) (s t : Bytes) (x : ℕ) → skip_delimiters d s ≡ x ∷ t → (x == d) ≡ false
unfolding skip_delimiters
skip_stops d [] t x e = absurd (cc (e))
skip_stops d (y ∷ s) t x e = ground (arith, skip_stops d s t x, e)

-- A bound on the rounds that is above the length of the text is enough.
serial_numbers-skip :
    (fuel : ℕ) (s t : Bytes)
    → skip_delimiters b'\n' s ≡ t
    → length t < fuel
    → serial_numbers fuel s ≡ non_empty (split t b'\n')
unfolding serial_numbers strtok split token_of behind_token first_token
serial_numbers-skip zero s t e h = elim h [ ]
serial_numbers-skip (suc fuel) s [] e h = ground (arith, e)
serial_numbers-skip (suc fuel) s (x ∷ t) e h =
    let n = skip_stops b'\n' s t x e in
    let rest = behind_token b'\n' t in
    let skipped = skip_delimiters b'\n' rest in
    let below : length skipped < fuel =
      omega (arith, skip_length b'\n' rest, behind_length b'\n' t) in
    let more = serial_numbers-skip fuel rest skipped refl below ∙ skip_split b'\n' rest in
    ground (arith, e, n, more, split-token b'\n' x t n)

serial_numbers-split : (s : Bytes) → serial_numbers (suc (length s)) s ≡ non_empty (split s b'\n')
serial_numbers-split s =
    let skipped = skip_delimiters b'\n' s in
    serial_numbers-skip (suc (length s)) s skipped refl (omega (arith, skip_length b'\n' s))
    ∙ skip_split b'\n' s

-- If the socket opens, the message is sent and an answer is received, the program on the udev
-- daemon prints the lines of the text up to its first zero byte that are not empty, each with a
-- newline; without a zero byte it reads an array element that is not initialised, or behind the
-- array if it is full.
pub request_serials-split :
    (p : Peer) (received : Bytes)
    → p.socket ≡ true
    → p.sendto udev_request udev_socket_path ≡ true
    → p.recv ≡ some received
    → request_serials p ≡ (
        if has_end received
        then done (0, printed_lines (non_empty (split (c_str received) b'\n')))
        else fault (if ltb (length received) 1024 then uninitialised else bad_index))
unfolding request_serials response_text
request_serials-split p received a b c =
    ground (arith, a, b, c, serial_numbers-split (c_str received))
