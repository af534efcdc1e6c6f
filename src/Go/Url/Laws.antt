-- ===== src/Go/Url/Laws.antt =====
-- Reading an escaped path gives the path back.
use ztxbas.Base.{
  length, ◌+◌, ◌≤◌, ◌↔◌, ℕ, ◌+◌, ◌/◌, ◌%◌, ◌<◌, Bool, true, false, [], ◌∷◌, Option, none, some, ◌≡◌,
  refl, arith, All, ◌≢◌, ap, ◌∙◌, Bool-cases, inl, inr,
}
use ztxbas.Base.Text.{Text, IsByte, codes, same_iff}
use ztxbas.Go.Url.{
  Url, escape, unescape, escaped_path, escapes_in_path, escapes_in_segment, path_escape, is_path,
  keep, unhex, upper_hex,
}

unhex-upper_hex : (n : ℕ) → n < 16 → unhex (upper_hex n) ≡ some n
unhex-upper_hex n h = ground arith

unescape_step :
    (c d f : ℕ) (s : Text) → c ≢ b'%' → unescape (c ∷ d ∷ f ∷ s) ≡ keep c (unescape (d ∷ f ∷ s))
unescape_step c d f s h = unfold unescape in (ground arith)

unescape-cons :
    (c : ℕ) (s t : Text) → c ≢ b'%' → unescape s ≡ some t → unescape (c ∷ s) ≡ some (c ∷ t)
unfolding unescape
unescape-cons c [] t h e = ground arith
unescape-cons c (d ∷ []) t h e = ground arith
unescape-cons c (d ∷ f ∷ s) t h e = unescape_step c d f s h ∙ ap (keep c) e

unescape-percent :
    (c : ℕ) (s t : Text)
    → c < 256
    → unescape s ≡ some t
    → unescape (b'%' ∷ upper_hex (c / 16) ∷ upper_hex (c % 16) ∷ s) ≡ some (c ∷ t)
unfolding unescape
unescape-percent c s t h e = ground (arith, unhex-upper_hex (c / 16), unhex-upper_hex (c % 16))

-- Whatever the mode escapes, if it escapes the percent sign.
pub unescape-escape :
    (p : ℕ → Bool) (s : Text) → p b'%' ≡ true → All IsByte s → unescape (escape p s) ≡ some s
unfolding escape
unescape-escape p [] h hs = unfold unescape in refl
unescape-escape p (c ∷ s) h (hc, hs) =
    let ih = unescape-escape p s h hs in
    elim (Bool-cases (p c)) [
      | inl e ↦ rw e (unescape-percent c _ s hc ih)
      | inr e ↦ rw e (unescape-cons c _ s (λ q. ground arith) ih)
    ]

-- Segments: escaping a path segment and reading it gives the segment.
pub unescape-path_escape : (s : Text) → All IsByte s → unescape (path_escape s) ≡ some s
unfolding path_escape
unescape-path_escape s h = unescape-escape escapes_in_segment s (percent_escapes tt) h
  where
    percent_escapes : Unit {0} → escapes_in_segment b'%' ≡ true
    percent_escapes _ = unfold escapes_in_segment in refl

-- A segment is left as it is exactly if none of its bytes is to be escaped.
pub path_escape_of_plain :
    (s : Text) → All (λ c. escapes_in_segment c ≡ false) s → path_escape s ≡ s
unfolding path_escape
path_escape_of_plain [] h = unfold escape in refl
path_escape_of_plain (c ∷ s) (hc, h) = unfold escape in (ground (arith, path_escape_of_plain s h))

length-escape : (p : ℕ → Bool) (s : Text) → length s ≤ length (escape p s)
unfolding escape
length-escape p [] = omega arith
length-escape p (c ∷ s) = ground (arith, length-escape p s)

escape_fixed : (p : ℕ → Bool) (s : Text) → escape p s ≡ s → All (λ c. p c ≡ false) s
unfolding escape
escape_fixed p [] e = tt
escape_fixed p (c ∷ s) e = elim (Bool-cases (p c)) [
  | inl h ↦ absurd (longer h)
  | inr h ↦ (h, escape_fixed p s (ground arith))
]
  where
    longer : p c ≡ true → ⊥
    longer h = omega (arith, ap {B = ℕ} length e, length-escape p s, longer_by h)
      where
        longer_by : p c ≡ true → length (escape p (c ∷ s)) ≡ length (escape p s) + 3
        longer_by h' = ground arith

pub path_escape_iff : (s : Text) → (path_escape s ≡ s) ↔ All (λ c. escapes_in_segment c ≡ false) s
path_escape_iff s =
    (unfold path_escape in (escape_fixed escapes_in_segment s), path_escape_of_plain s)

is_path_sound : (p : Text) (o : Option Text) → is_path p o ≡ true → o ≡ some p
is_path_sound p none h = cc
is_path_sound p (some q) h = ap some ((same_iff q p).0 h)

star : unescape (codes "%2A") ≡ some (codes "*")
unfolding unescape
star = refl

percent_escapes : escapes_in_path b'%' ≡ true
unfolding escapes_in_path
percent_escapes = refl

-- The path that is printed is read back as the path, whether it is printed as it was written or
-- escaped anew.
pub unescape-escaped_path : (u : Url) → All IsByte u.path → unescape (escaped_path u) ≡ some u.path
unfolding escaped_path
unescape-escaped_path u h = ground (
  arith,
  is_path_sound u.path (unescape u.raw_path),
  same_iff u.path (codes "*"),
  star,
  unescape-escape escapes_in_path u.path percent_escapes h,
)
