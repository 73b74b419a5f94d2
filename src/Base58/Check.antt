-- ===== src/Base58/Check.antt =====
-- The texts with a checksum of src/nectargraphenebase/base58.py: WIF keys and prefixed public keys.
-- Of the hashes the proofs use that a digest is a byte string, and its length.
use hive_nectar.Prelude.{
  ℕ, zero, suc, ◌-◌, ◌<◌, ◌≤◌, ◌≡◌, refl, sym, ap, ◌∙◌, ◌↔◌, Result, Bool, true, false, ◌&&◌, [],
  ◌∷◌, ◌++◌, if◌then◌else◌, arith, length, length-append, take, drop, take-append_length,
  take-append-drop, drop-append_length, length-take, All, All-append, All-take, Error,
  assertion_error, ok, ◌>>=◌, err, >>=-eq-ok, bytes_eq, bytes_eq_refl, bytes_eq→eq,
}
use hive_nectar.Prelude.Bytes.{
  Bytes, Text, IsByte, unhexlify-IsByte, hexlify, hexlify-append, unhexlify, unhexlify-hexlify,
  hex_digit,
}
use hive_nectar.Prelude.Digits.{to_digits, from_digits}
use hive_nectar.Base58.{
  number, format_hex, version_text, but_last_four, last_four, doublesha256, ripemd160, base58encode,
  base58decode, base58_check_encode, base58_check_decode, gph_base58_check_encode,
  gph_base58_check_decode,
}
use hive_nectar.Base58.Reading.{pad_hex-hexlify}
use hive_nectar.Base58.RoundTrip.{encoded_text, from_digits-append_pos, from_digits_pos}

-- The data is what stands before the last four bytes.
split_last_four :
    (bs cs : Bytes) → length cs ≡ 4 → (but_last_four (bs ++ cs) ≡ bs) × (last_four (bs ++ cs) ≡ cs)
split_last_four bs cs e =
    let n : length (bs ++ cs) - 4 ≡ length bs = omega (arith, length-append bs cs) in
    (rw n (take-append_length bs cs), rw n (drop-append_length bs cs))

hex_version_good : ℕ → Bool
hex_version_good zero = true
hex_version_good (suc n) = bytes_eq (format_hex n) (hexlify (n ∷ [])) && hex_version_good n

hex_version_table : hex_version_good 256 ≡ true
unfolding hex_version_good bytes_eq format_hex hexlify hex_digit to_digits
hex_version_table = refl

hex_version_at :
    (n v : ℕ)
    → hex_version_good n ≡ true
    → v < n
    → bytes_eq (format_hex v) (hexlify (v ∷ [])) ≡ true
unfolding hex_version_good
hex_version_at zero v h p = absurd (omega arith)
hex_version_at (suc n) v h p = ground (arith, hex_version_at n v)

format_hex_byte : (v : ℕ) → v < 256 → format_hex v ≡ hexlify (v ∷ [])
format_hex_byte v p = bytes_eq→eq _ _ (hex_version_at 256 v hex_version_table p)

-- What the proofs use of a hash of `hashlib`: its digest is a byte string of a fixed length.
pub record IsDigest (size : ℕ) (hash : Bytes → Bytes) : Type 0 where
  pub bytes : (bs : Bytes) → All IsByte (hash bs)
  pub sized : (bs : Bytes) → length (hash bs) ≡ size

-- The text of data with four checksum bytes behind it decodes to both.
checked_text :
    (bs cs : Bytes)
    → All IsByte bs
    → All IsByte cs
    → 0 < from_digits 256 bs
    → (t : Text) × (base58encode (hexlify bs ++ hexlify cs) ≡ ok t)
      × (base58decode t ≡ ok (hexlify (bs ++ cs)))
checked_text bs cs h k p =
    let (t, e, d) =
      encoded_text (bs ++ cs) (All-append IsByte bs cs h k) (from_digits-append_pos bs cs p) in
    (t, rw (← hexlify-append bs cs) e, d)

length-checksum : (size : ℕ) (bs : Bytes) → length bs ≡ size → 4 ≤ size → length (take 4 bs) ≡ 4
length-checksum size bs e h = omega (arith, length-take 4 bs)

doublesha256_bytes :
    (sha256 : Bytes → Bytes) (bs : Bytes)
    → All IsByte bs
    → doublesha256 sha256 (hexlify bs) ≡ ok (sha256 (sha256 bs))
unfolding doublesha256
doublesha256_bytes sha256 bs h = rw (pad_hex-hexlify bs, unhexlify-hexlify bs h)

ripemd160_bytes :
    (ripemd : Bytes → Bytes) (bs : Bytes)
    → All IsByte bs
    → ripemd160 ripemd (hexlify bs) ≡ ok (ripemd bs)
unfolding ripemd160
ripemd160_bytes ripemd bs h = rw (unhexlify-hexlify bs h)

-- Decoding data with the right checksum behind it.
base58_check_decode_checked :
    (sha256 : Bytes → Bytes) (t : Text) (bs cs : Bytes) (skip : Bool)
    → (base58decode t >>= unhexlify) ≡ ok (bs ++ cs)
    → All IsByte bs
    → length cs ≡ 4
    → take 4 (sha256 (sha256 bs)) ≡ cs
    → base58_check_decode sha256 t skip
      ≡ (if skip then ok (drop 2 (hexlify bs)) else ok (hexlify bs))
unfolding base58_check_decode
base58_check_decode_checked sha256 t bs cs skip d h l c =
    let (hex, e, f) = >>=-eq-ok (base58decode t) unhexlify d in
    let (front, back) = split_last_four bs cs l in
    simp (e, f, front, back, doublesha256_bytes sha256 bs h, c, bytes_eq_refl cs)

gph_base58_check_decode_checked :
    (ripemd : Bytes → Bytes) (t : Text) (bs cs : Bytes)
    → base58decode t ≡ ok (hexlify (bs ++ cs))
    → All IsByte bs
    → All IsByte cs
    → length cs ≡ 4
    → take 4 (ripemd bs) ≡ cs
    → gph_base58_check_decode ripemd t ≡ ok (hexlify bs)
unfolding gph_base58_check_decode
gph_base58_check_decode_checked ripemd t bs cs d h k l c =
    let whole = All-append IsByte bs cs h k in
    let (front, back) = split_last_four bs cs l in
    simp (
      d,
      unhexlify-hexlify (bs ++ cs) whole,
      front,
      back,
      ripemd160_bytes ripemd bs h,
      c,
      bytes_eq_refl cs,
    )

-- For a hash of 32 bytes, a version byte above 0 and any bytes, the base-58 text with checksum is
-- read back to the same hexadecimal data.
pub base58_check_decode-base58_check_encode :
    (sha256 : Bytes → Bytes)
    → IsDigest 32 sha256
    → (version : ℕ) (payload : Bytes) → 0 < version
    → version < 256
    → All IsByte payload
    → (base58_check_encode sha256 (number version) (hexlify payload) >>= λ t.
        base58_check_decode sha256 t true)
      ≡ ok (hexlify payload)
unfolding base58_check_encode version_text
base58_check_decode-base58_check_encode sha256 digest version payload p q h =
    let bs = version ∷ payload in
    let cs = take 4 (sha256 (sha256 bs)) in
    let k = All-take IsByte 4 _ (digest.bytes (sha256 bs)) in
    let (t, e, d) = checked_text bs cs (q, h) k (from_digits_pos version payload p) in
    let l = length-checksum 32 _ (digest.sized (sha256 bs)) (omega arith) in
    let encoded : base58_check_encode sha256 (number version) (hexlify payload) ≡ ok t =
      rw
        (
          format_hex_byte version q,
          ← hexlify-append (version ∷ []) payload,
          doublesha256_bytes sha256 bs (q, h),
        )
        e in
    rw encoded (
      base58_check_decode_checked sha256 t bs cs true
        (rw d (unhexlify-hexlify (bs ++ cs) (All-append IsByte bs cs (q, h) k))) (q, h) l refl
      ∙ unfold hexlify in refl)

-- For a hash of 20 bytes and data that starts with a byte above 0, the Graphene text with checksum
-- is read back to the same hexadecimal data.
pub gph_base58_check_decode-gph_base58_check_encode :
    (ripemd : Bytes → Bytes)
    → IsDigest 20 ripemd
    → (key : Bytes) → All IsByte key
    → 0 < from_digits 256 key
    → (gph_base58_check_encode ripemd (hexlify key) >>= gph_base58_check_decode ripemd)
      ≡ ok (hexlify key)
unfolding gph_base58_check_encode
gph_base58_check_decode-gph_base58_check_encode ripemd digest key h p =
    let k = All-take IsByte 4 _ (digest.bytes key) in
    let (t, e, d) = checked_text key (take 4 (ripemd key)) h k p in
    let l = length-checksum 20 _ (digest.sized key) (omega arith) in
    let encoded : gph_base58_check_encode ripemd (hexlify key) ≡ ok t =
      rw (ripemd160_bytes ripemd key h) e in
    rw encoded (gph_base58_check_decode_checked ripemd t key _ d h k l refl)

guarded_ok {ℓ} :
    {A : Type ℓ} (b : Bool) (r : Result A) (e : Error) {a : A}
    → (if b then r else err e) ≡ ok a
    → (b ≡ true) × (r ≡ ok a)
guarded_ok true r e h = (refl, h)
guarded_ok false r e h = cc

drop-hexlify : (data' : Bytes) → drop 2 (hexlify data') ≡ hexlify (drop 1 data')
unfolding hexlify
drop-hexlify [] = refl
drop-hexlify (b ∷ bs) = refl

-- What the decoding returns of the data.
returned_data :
    (skip : Bool) (data' : Bytes) {dec : Text}
    → (if skip then ok (drop 2 (hexlify data')) else ok (hexlify data')) ≡ ok dec
    → dec ≡ hexlify (if skip then drop 1 data' else data')
returned_data true data' {dec = dec} h =
    let same : dec ≡ drop 2 (hexlify data') = cc in same ∙ drop-hexlify data'
returned_data false data' h = cc

data_returned :
    (skip : Bool) (data' : Bytes)
    → (if skip then ok (drop 2 (hexlify data')) else ok (hexlify data'))
      ≡ ok (hexlify (if skip then drop 1 data' else data'))
data_returned true data' = ap ok (drop-hexlify data')
data_returned false data' = refl

-- The text stands for some data with the first four bytes of its double hash behind it, of which `dec`
-- has all bytes, or all but the first.
abbrev pub IsChecked : (Bytes → Bytes) → Text → Bool → Text → Type 0
IsChecked sha256 t skip dec =
    (data' : Bytes) × All IsByte data'
    × ((base58decode t >>= unhexlify) ≡ ok (data' ++ take 4 (sha256 (sha256 data'))))
    × (dec ≡ hexlify (if skip then drop 1 data' else data'))

base58_check_decode-IsChecked :
    (sha256 : Bytes → Bytes) (t : Text) (skip : Bool) (dec : Text)
    → base58_check_decode sha256 t skip ≡ ok dec
    → IsChecked sha256 t skip dec
unfolding base58_check_decode
base58_check_decode-IsChecked sha256 t skip dec h =
    let (hex, e, h1) = >>=-eq-ok (base58decode t) _ h in
    let (s_bytes, f, h2) = >>=-eq-ok (unhexlify hex) _ h1 in
    let bytes = All-take IsByte (length s_bytes - 4) s_bytes (unhexlify-IsByte hex s_bytes f) in
    let data' = but_last_four s_bytes in
    let (digest, g, h3) = >>=-eq-ok (doublesha256 sha256 (hexlify data')) _ h2 in
    let hashed : digest ≡ sha256 (sha256 data') =
      let one = doublesha256_bytes sha256 data' bytes in cc in
    let (same, out) =
      guarded_ok (bytes_eq (last_four s_bytes) (take 4 digest))
        (if skip then ok (drop 2 (hexlify data')) else ok (hexlify data')) assertion_error h3 in
    let whole : s_bytes ≡ data' ++ take 4 (sha256 (sha256 data')) =
      sym (take-append-drop (length s_bytes - 4) s_bytes)
      ∙ ap (data' ++◌) (bytes_eq→eq _ _ same ∙ ap (take 4) hashed) in
    (data', bytes, rw (e, f) (ap ok whole), returned_data skip data' out)

-- For a hash of 32 bytes, base58CheckDecode returns a text just if its argument stands for some
-- data with the first four bytes of the double hash of that data behind it, and the text is the
-- data in hexadecimal, without its first byte if that is to be skipped.
pub base58_check_decode_accepts :
    (sha256 : Bytes → Bytes) (t : Text) (skip : Bool) (dec : Text)
    → IsDigest 32 sha256
    → base58_check_decode sha256 t skip ≡ ok dec ↔ IsChecked sha256 t skip dec
base58_check_decode_accepts sha256 t skip dec digest = (
  base58_check_decode-IsChecked sha256 t skip dec,
  λ (data', bytes, d, out).
      base58_check_decode_checked sha256 t data' _ skip d bytes
        (length-checksum 32 _ (digest.sized (sha256 data')) (omega arith)) refl
      ∙ data_returned skip data'
      ∙ ap ok (sym out),
)
