-- ===== src/Wire/Unicodify.antt =====
-- `String.unicodify` of src/nectargraphenebase/types.py: control characters are written out.
use hive_nectar.Prelude.{
  ℕ, ◌/◌, ◌%◌, ◌<◌, ◌≤◌, ◌≡◌, refl, sym, All-append, ◌&&◌, ◌||◌, [], ◌∷◌, ◌++◌, arith, ltb, leb,
  ◌==◌, if◌then◌else◌, All, append_assoc, ◌⊎◌,
}
use hive_nectar.Prelude.Bytes.{Text, hex_digit}

-- `"u%04x" % o`, for `o` below 32.
unfoldable pub escape : ℕ → Text
unfolding hex_digit
escape o = b'u' ∷ b'0' ∷ b'0' ∷ hex_digit (o / 16) ∷ hex_digit (o % 16) ∷ []

unfoldable pub unicodify_char : ℕ → Text
unicodify_char o =
    if leb o 7 || o == 11 || (ltb 13 o && ltb o 32)
    then escape o
    else if o == 8
    then b'b' ∷ []
    else if o == 9
    then 9 ∷ []
    else if o == 10
    then 10 ∷ []
    else if o == 12
    then b'f' ∷ []
    else if o == 13
    then 13 ∷ []
    else o ∷ []

unfoldable pub unicodify : Text → Text
unicodify [] = []
unicodify (o ∷ os) = unicodify_char o ++ unicodify os

-- Not a control character, but tab, line feed and carriage return.
abbrev pub IsVisible : ℕ → Type 0
IsVisible o = (32 ≤ o) ⊎ (o ≡ 9) ⊎ (o ≡ 10) ⊎ (o ≡ 13)

unicodify_char_visible : (o : ℕ) → IsVisible o → unicodify_char o ≡ o ∷ []
unfolding unicodify_char
unicodify_char_visible o h = ground arith

-- A text of visible characters is left alone.
pub unicodify_visible : (s : Text) → All IsVisible s → unicodify s ≡ s
unfolding unicodify
unicodify_visible [] h = refl
unicodify_visible (o ∷ s) (p, h) = rw (unicodify_char_visible o p, unicodify_visible s h)

escape-IsVisible : (o : ℕ) → o < 32 → All IsVisible (escape o)
unfolding escape
escape-IsVisible o h = ground arith

unicodify_char-IsVisible : (o : ℕ) → All IsVisible (unicodify_char o)
unfolding unicodify_char
unicodify_char-IsVisible o = ground (arith, escape-IsVisible o)

-- What is written holds visible characters only.
pub unicodify-IsVisible : (s : Text) → All IsVisible (unicodify s)
unfolding unicodify
unicodify-IsVisible [] = tt
unicodify-IsVisible (o ∷ s) =
    All-append IsVisible (unicodify_char o) (unicodify s) (unicodify_char-IsVisible o)
      (unicodify-IsVisible s)

-- Of any text, `unicodify` leaves visible characters only, and a second pass changes nothing.
unicodify_twice : (s : Text) → All IsVisible (unicodify s) × (unicodify (unicodify s) ≡ unicodify s)
unicodify_twice s = (unicodify-IsVisible s, unicodify_visible (unicodify s) (unicodify-IsVisible s))

unicodify-append : (s t : Text) → unicodify (s ++ t) ≡ unicodify s ++ unicodify t
unfolding unicodify
unicodify-append [] t = refl
unicodify-append (o ∷ s) t =
    rw (unicodify-append s t) (sym (append_assoc (unicodify_char o) (unicodify s) (unicodify t)))

-- A backspace is written as the letter `b`, and a form feed as `f`: texts that differ there alone
-- are written alike.
unicodify_collides :
    (s t : Text)
    → (unicodify (s ++ 8 ∷ t) ≡ unicodify (s ++ b'b' ∷ t))
      × (unicodify (s ++ 12 ∷ t) ≡ unicodify (s ++ b'f' ∷ t))
unicodify_collides s t = (
  rw (unicodify-append s (8 ∷ t), unicodify-append s (b'b' ∷ t))
      (unfold unicodify unicodify_char in refl),
  rw (unicodify-append s (12 ∷ t), unicodify-append s (b'f' ∷ t))
      (unfold unicodify unicodify_char in refl),
)
