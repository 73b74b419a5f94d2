-- ===== src/Ledger/Chunks.antt =====
-- The commands of src/nectargraphenebase/unsignedtransactions.py carry the whole message.
use hive_nectar.Prelude.{
  ℕ, zero, suc, ◌/◌, ◌≤◌, ◌<◌, ◌≡◌, refl, ap, Bool, true, false, List, [], ◌∷◌, ◌++◌, length,
  length-take, take, drop, drop-append_length, lt→ltb, ok, ◌>>=◌, arith,
}
use hive_nectar.Prelude.Bytes.{Bytes}
use hive_nectar.Ledger.{one_byte, apdu, apdu_loop, build_apdu}

-- What a command brings besides its head: the first has six bytes and the path in front, others five.
abbrev pub chunk_of : Bool → ℕ → Bytes → Bytes
chunk_of true path_length command = drop path_length (drop 6 command)
chunk_of false path_length command = drop 5 command

-- The message that the commands bring together.
pub reassemble : Bool → ℕ → List Bytes → Bytes
reassemble first path_length [] = []
reassemble first path_length (command ∷ commands) =
    chunk_of first path_length command ++ reassemble false path_length commands

take-append-drop : (n : ℕ) (xs : Bytes) → take n xs ++ drop n xs ≡ xs
take-append-drop zero xs = refl
take-append-drop (suc n) [] = refl
take-append-drop (suc n) (x ∷ xs) = ap (λ r. x ∷ r) (take-append-drop n xs)

length-drop : (n : ℕ) (xs : Bytes) → length (drop n xs) ≤ length xs
length-drop zero xs = omega arith
length-drop (suc n) [] = omega arith
length-drop (suc n) (x ∷ xs) = omega (arith, length-drop n xs)

apdu-ok :
    (first : Bool) (path chunk : Bytes)
    → length chunk < 256
    → length path / 4 < 256
    → (command : Bytes) × (apdu first path chunk ≡ ok command)
      × (chunk_of first (length path) command ≡ chunk)
unfolding apdu one_byte
apdu-ok true path chunk l m = (
  (212 ∷ 4 ∷ 0 ∷ 0 ∷ []) ++ (length chunk ∷ []) ++ (length path / 4 ∷ []) ++ path ++ chunk,
  rw (lt→ltb (length chunk) 256 l, lt→ltb (length path / 4) 256 m) refl,
  drop-append_length path chunk,
)
apdu-ok false path chunk l m = (
  (212 ∷ 4 ∷ 128 ∷ 0 ∷ []) ++ (length chunk ∷ []) ++ chunk,
  rw (lt→ltb (length chunk) 256 l) refl,
  refl,
)

apdu_loop-ok :
    (fuel : ℕ) (first : Bool) (path rest : Bytes)
    → length rest ≤ fuel
    → length path / 4 < 256
    → (commands : List Bytes) × (apdu_loop fuel first path rest ≡ ok commands)
      × (reassemble first (length path) commands ≡ rest)
unfolding apdu_loop reassemble
apdu_loop-ok zero first path [] l m = ([], refl, refl)
apdu_loop-ok zero first path (b ∷ bs) l m = absurd (omega (arith, l))
apdu_loop-ok (suc fuel) first path [] l m = ([], refl, refl)
apdu_loop-ok (suc fuel) first path (b ∷ bs) l m =
    let short : length (take 255 (b ∷ bs)) < 256 = omega (arith, length-take 255 (b ∷ bs)) in
    let (command, e, c) = apdu-ok first path (take 255 (b ∷ bs)) short m in
    let left : length (drop 255 (b ∷ bs)) ≤ fuel = omega (arith, l, length-drop 254 bs) in
    let (commands, e', c') = apdu_loop-ok fuel false path (drop 255 (b ∷ bs)) left m in
    (command ∷ commands, rw (e, e') refl, rw (c, c') (take-append-drop 255 (b ∷ bs)))

-- For a path whose size fits a byte, the commands for the hardware wallet are made for every
-- message, and their chunks are the whole message in its order.
pub build_apdu-reassemble :
    (path message : Bytes)
    → length path / 4 < 256
    → (build_apdu path message >>= λ commands. ok (reassemble true (length path) commands))
      ≡ ok message
unfolding build_apdu
build_apdu-reassemble path message m =
    let (commands, e, c) = apdu_loop-ok (length message) true path message (omega arith) m in
    rw e (ap ok c)
