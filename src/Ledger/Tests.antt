-- ===== src/Ledger/Tests.antt =====
-- Runs of src/nectargraphenebase/unsignedtransactions.py, and its theorem at a concrete input.
use hive_nectar.Prelude.{◌≡◌, refl, arith, true, [], ◌∷◌, replicate, ok, ◌>>=◌}
use hive_nectar.Ledger.{build_apdu, build_apdu_pubkey, one_byte}
use hive_nectar.Ledger.Chunks.{reassemble, build_apdu-reassemble}

pubkey_runs :
    build_apdu_pubkey (1 ∷ 2 ∷ 3 ∷ 4 ∷ []) true ≡ ok (212 ∷ 2 ∷ 1 ∷ 1 ∷ 5 ∷ 1 ∷ 1 ∷ 2 ∷ 3 ∷ 4 ∷ [])
unfolding build_apdu_pubkey one_byte
pubkey_runs = refl

build_apdu-reassemble_example :
    (build_apdu (1 ∷ 2 ∷ 3 ∷ 4 ∷ []) (replicate 300 9) >>= λ commands.
    ok (reassemble true 4 commands))
    ≡ ok (replicate 300 9)
build_apdu-reassemble_example =
    build_apdu-reassemble (1 ∷ 2 ∷ 3 ∷ 4 ∷ []) (replicate 300 9) (omega arith)
