-- ===== src/Auth/Canonical.antt =====
-- What the text that src/infrastructure/auth/hmac.ts signs says of a request.
use Prim.Native.Char.{code}
use text.Mathlib.TextEquality.{Char-path}
use jungle_challenge.Common.{
  ℕ, ◌≡◌, refl, sym, ◌∙◌, ap, Bool, false, ◌||◌, String, List, [], ◌∷◌, ◌++◌, ◌==◌, nat_eq, arith,
}
use jungle_challenge.Application.CanonicalJson.{◌<>◌}
use jungle_challenge.Auth.Hmac.{Platform, SignatureParts, newline, canonical_string_to_sign}
use jungle_challenge.Money.Amount.{codes}
use jungle_challenge.Money.Text.{codes-append}

abbrev pub has_newline : List ℕ → Bool
has_newline [] = false
has_newline (c ∷ s) = c == 10 || has_newline s

codes_injective : (s t : String) → codes s ≡ codes t → s ≡ t
codes_injective String.[] String.[] e = refl
codes_injective String.[] (String.◌∷◌ d t) e = cc
codes_injective (String.◌∷◌ c s) String.[] e = cc
codes_injective (String.◌∷◌ c s) (String.◌∷◌ d t) e =
    let same : code c ≡ code d = cc in
    let rest : codes s ≡ codes t = cc in
    rw (Char-path c d same) (ap (String.◌∷◌ d) (codes_injective s t rest))

-- A text without a newline, up to the first newline.
split_line :
    (xs ys s t : List ℕ)
    → has_newline xs ≡ false
    → has_newline ys ≡ false
    → xs ++ (10 ∷ s) ≡ ys ++ (10 ∷ t)
    → (xs ≡ ys) × (s ≡ t)
split_line [] [] s t h k e = (refl, cc)
split_line [] (d ∷ ys) s t h k e =
    let same : 10 ≡ d = cc in let none_left : ⊥ = ground (arith, k, same) in absurd none_left
split_line (c ∷ xs) [] s t h k e =
    let same : c ≡ 10 = cc in let none_left : ⊥ = ground (arith, h, same) in absurd none_left
split_line (c ∷ xs) (d ∷ ys) s t h k e =
    let same : c ≡ d = cc in
    let rest : xs ++ (10 ∷ s) ≡ ys ++ (10 ∷ t) = cc in
    let (l, r) = split_line xs ys s t (ground (arith, h)) (ground (arith, k)) rest in
    (rw (same, l) refl, r)

codes-line : (a s : String) → codes (a <> newline <> s) ≡ codes a ++ (10 ∷ codes s)
codes-line a s = codes-append a (newline <> s) ∙ ap (λ r. codes a ++ r) (codes-append newline s)

split_text :
    (a b s t : String)
    → has_newline (codes a) ≡ false
    → has_newline (codes b) ≡ false
    → a <> newline <> s ≡ b <> newline <> t
    → (a ≡ b) × (s ≡ t)
split_text a b s t h k e =
    let (l, r) =
      split_line (codes a) (codes b) (codes s) (codes t) h k
        (sym (codes-line a s) ∙ ap codes e ∙ codes-line b t) in
    (codes_injective a b l, codes_injective s t r)

module _ (H : Platform) where
  -- Each part before the body fits on a line, as the parts of a request do.
  pub record FitsOnLines (p : SignatureParts) : Type 0 where
    pub method : has_newline (codes (H.to_upper_case p.method)) ≡ false
    pub path : has_newline (codes p.path) ≡ false
    pub provider_id : has_newline (codes p.provider_id) ≡ false
    pub timestamp : has_newline (codes p.timestamp) ≡ false

  -- The text that is signed tells requests apart: where two are signed as one text, the method but for its
  -- case, the path, the provider, the time and the digest of the body are the same.
  pub canonical_string_to_sign-tells_apart :
      (p q : SignatureParts)
      → FitsOnLines p
      → FitsOnLines q
      → canonical_string_to_sign H p ≡ canonical_string_to_sign H q
      → (H.to_upper_case p.method ≡ H.to_upper_case q.method)
        × (p.path ≡ q.path)
        × (p.provider_id ≡ q.provider_id)
        × (p.timestamp ≡ q.timestamp)
        × (H.sha256_hex p.raw_body ≡ H.sha256_hex q.raw_body)
  unfolding canonical_string_to_sign
  canonical_string_to_sign-tells_apart p q f g e =
      let (m, e1) =
        split_text (H.to_upper_case p.method) (H.to_upper_case q.method) _ _ f.method g.method e in
      let (u, e2) = split_text p.path q.path _ _ f.path g.path e1 in
      let (i, e3) = split_text p.provider_id q.provider_id _ _ f.provider_id g.provider_id e2 in
      let (t, e4) = split_text p.timestamp q.timestamp _ _ f.timestamp g.timestamp e3 in
      (m, u, i, t, e4)
