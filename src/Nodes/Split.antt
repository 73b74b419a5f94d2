-- ===== src/Nodes/Split.antt =====
-- The addresses of a string, in src/nectarapi/node.py.
use mathlib.Core.Path.{subst}
use hive_nectar.Prelude.{
  append-nil, ℕ, ◌≡◌, ◌≢◌, refl, ap, ◌∙◌, false, ◌||◌, List, [], ◌∷◌, ◌++◌, ◌==◌, All, arith,
}
use hive_nectar.Prelude.Bytes.{Text}
use hive_nectar.Nodes.{split_urls, prepend}

-- A character that does not separate addresses.
abbrev pub IsInner : ℕ → Type 0
IsInner c = (c ≢ b',') × (c ≢ b';')

-- The addresses with commas between them.
pub join : Text → List Text → Text
join t [] = t
join t (u ∷ us) = t ++ b',' ∷ join u us

split_urls-inner :
    (t rest u : Text) (us : List Text)
    → All IsInner t
    → split_urls rest ≡ u ∷ us
    → split_urls (t ++ rest) ≡ (t ++ u) ∷ us
unfolding split_urls prepend
split_urls-inner [] rest u us a e = e
split_urls-inner (c ∷ t) rest u us ((x, y), a) e =
    let no : ((c == b',') || (c == b';')) ≡ false = ground arith in
    rw (no, split_urls-inner t rest u us a e) refl

-- Addresses without a comma or a semicolon that are joined by commas are split into the same ones.
split_urls-join :
    (t : Text) (us : List Text)
    → All IsInner t
    → All (All IsInner) us
    → split_urls (join t us) ≡ t ∷ us
unfolding join split_urls
split_urls-join t [] a b =
    subst (λ x. split_urls x ≡ x ∷ []) (append-nil t) (split_urls-inner t [] [] [] a refl)
split_urls-join t (u ∷ us) a (b, bs) =
    split_urls-inner t (b',' ∷ join u us) [] (u ∷ us) a
      (ap (λ r. [] ∷ r) (split_urls-join u us b bs))
    ∙ ap (λ x. x ∷ u ∷ us) (append-nil t)
