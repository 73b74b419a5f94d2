-- ===== src/Ledger.antt =====
-- The commands for a hardware wallet in src/nectargraphenebase/unsignedtransactions.py: the message of a
-- transaction goes out in chunks of 255 bytes, and a request for a public key in one command. The bytes
-- of the key path and the message are arguments.
mod Chunks
mod Tests
use hive_nectar.Prelude.{
  ℕ, zero, suc, ◌+◌, ◌/◌, Bool, true, false, List, [], ◌∷◌, ◌++◌, length, take, drop, if◌then◌else◌,
  ltb, Result, ok, err, ◌>>=◌, value_error,
}
use hive_nectar.Prelude.Bytes.{Bytes}

-- `bytes([n])` refuses a number above 255.
unfoldable pub one_byte : ℕ → Result Bytes
one_byte n = if ltb n 256 then ok (n ∷ []) else err value_error

-- The command that carries a chunk; the first one carries the path too.
unfoldable pub apdu : Bool → Bytes → Bytes → Result Bytes
apdu true path_bytes chunk = do
  total_size ← one_byte (length chunk)
  path_size ← one_byte (length path_bytes / 4)
  ok ((212 ∷ 4 ∷ 0 ∷ 0 ∷ []) ++ total_size ++ path_size ++ path_bytes ++ chunk)
apdu false path_bytes chunk = do
  total_size ← one_byte (length chunk)
  ok ((212 ∷ 4 ∷ 128 ∷ 0 ∷ []) ++ total_size ++ chunk)

-- The loop of `build_apdu` over what is left of the message, which shrinks with every chunk.
unfoldable pub apdu_loop : ℕ → Bool → Bytes → Bytes → Result (List Bytes)
apdu_loop zero first path_bytes rest = ok []
apdu_loop (suc fuel) first path_bytes [] = ok []
apdu_loop (suc fuel) first path_bytes (b ∷ bs) = do
  command ← apdu first path_bytes (take 255 (b ∷ bs))
  commands ← apdu_loop fuel false path_bytes (drop 255 (b ∷ bs))
  ok (command ∷ commands)

unfoldable pub build_apdu : Bytes → Bytes → Result (List Bytes)
build_apdu path_bytes message = apdu_loop (length message) true path_bytes message

unfoldable pub build_apdu_pubkey : Bytes → Bool → Result Bytes
build_apdu_pubkey path_bytes request_screen_approval = do
  size ← one_byte (length path_bytes + 1)
  path_size ← one_byte (length path_bytes / 4)
  ok (
      (212 ∷ 2 ∷ (if request_screen_approval then 1 else 0) ∷ 1 ∷ [])
      ++ size
      ++ path_size
      ++ path_bytes)
