-- ===== src/Scsi.antt =====
-- SCSI/program_3.cpp: a disk is asked for its identity by the SCSI command INQUIRY. What the kernel
-- answers is an argument.
pub mod Fields
use storing_devices_logs_tfm.Base.{
  ℕ, zero, suc, ◌+◌, ◌==◌, Bool, true, false, not, ◌&&◌, if◌then◌else◌, List, [], ◌∷◌, ◌++◌, Option,
  none, some, Bytes, text, take, drop, Outcome, done, fault, bad_index, ◌>>=◌,
}
use storing_devices_logs_tfm.Regex.{c_str}
use storing_devices_logs_tfm.Decimal.{natural}

-- The fields of `sg_io_hdr_t` that are set, with the bytes that `cmdp` points to. That the data go
-- from the device to `inquiry_reply` is in the answer of `sg_io`.
pub record SgIoHdr : Type 0 where
  pub interface_id : ℕ
  pub cmd_len : ℕ
  pub mx_sb_len : ℕ
  pub dxfer_len : ℕ
  pub cmdp : Bytes
  pub timeout : ℕ

abbrev pub inquiry_cmd : Bytes
inquiry_cmd = 18 ∷ 0 ∷ 0 ∷ 0 ∷ 96 ∷ 0 ∷ []

abbrev pub io_hdr : SgIoHdr
io_hdr = record {
  interface_id = b'S';
  cmd_len = 6;
  mx_sb_len = 32;
  dxfer_len = 96;
  cmdp = inquiry_cmd;
  timeout = 20000;
}

-- `sg_io` gives the 96 bytes of `inquiry_reply`, or -1: `none`.
pub record Target : Type 0 where
  pub opens : Bool
  pub sg_io : SgIoHdr → Option Bytes

-- `strncpy` of 20 bytes, and the end of the string.
abbrev pub inquiry_serial : Bytes → Bytes
inquiry_serial inquiry_reply = c_str (take 20 (drop 36 inquiry_reply))

-- `%.*s` with 8, at the start of the reply.
abbrev pub vendor_id : Bytes → Bytes
vendor_id inquiry_reply = c_str (take 8 inquiry_reply)

-- `%.*s` with 16 - 8, behind the first 8 bytes.
abbrev pub product_id : Bytes → Bytes
product_id inquiry_reply = c_str (take 8 (drop 8 inquiry_reply))

abbrev pub newline : Bytes
newline = b'\n' ∷ []

-- The loop over the bytes from the index `i`.
unfoldable pub characters : ℕ → Bytes → Bytes
characters i [] = []
characters i (c ∷ s) =
    text "Character " ++ (natural i ++ (text ": " ++ (c ∷ (newline ++ characters (i + 1) s))))

unfoldable pub has_end : Bytes → Bool
has_end [] = false
has_end (c ∷ s) = if c == 0 then true else has_end s

-- `%s` of the reply: without a zero in it the read goes on behind the array.
unfoldable pub all_data : Bytes → Outcome Bytes
unfolding has_end
all_data inquiry_reply =
    if has_end inquiry_reply then done (c_str inquiry_reply) else fault bad_index

abbrev pub printed_fields : Bytes → Bytes
printed_fields reply =
    text "Vendor ID:     "
    ++ (vendor_id reply
        ++ (newline
            ++ (text "Product ID:    "
                ++ (product_id reply
                    ++ (newline
                        ++ (text "Serial Number: " ++ (inquiry_serial reply ++ newline)))))))

-- The status of the program and its standard output.
unfoldable pub inquire : Target → Outcome (ℕ × Bytes)
unfolding all_data characters
inquire d =
    if d.opens
    then elim (d.sg_io io_hdr) [
      | none ↦ done (1, [])
      | some reply ↦ all_data reply >>= λ all. done (
        0,
        printed_fields reply
            ++ (characters 0 reply ++ (text "All data obtained: " ++ (all ++ newline))),
      )
    ]
    else done (1, [])
