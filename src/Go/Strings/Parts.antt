-- ===== src/Go/Strings/Parts.antt =====
-- Splitting a text and putting its parts together again; trimming.
use mathlib.Core.List.{reverse, append_assoc, reverse-append, reverse-reverse}
use ztxbas.Base.{
  All, All-append, Bool-cases, inl, inr, ◌==◌, ℕ, ◌≡◌, refl, sym, ap, subst, ◌∙◌, false, Bool, List,
  [], ◌∷◌, ◌++◌, arith,
}
use ztxbas.Base.Text.{Text, Lacks}
use ztxbas.Go.Strings.{cut, split, trim_left, trim_right}

-- Each part behind a separator; the parts with separators between them.
abbrev separated : ℕ → List Text → Text
separated sep [] = []
separated sep (p ∷ ps) = sep ∷ (p ++ separated sep ps)

abbrev pub join : ℕ → List Text → Text
join sep [] = []
join sep (p ∷ ps) = p ++ separated sep ps

separated-cut : (sep : ℕ) (cur s : Text) → separated sep (cut sep cur s) ≡ sep ∷ (cur ++ s)
unfolding cut
separated-cut sep cur [] = refl
separated-cut sep cur (c ∷ s) = ground (
  arith,
  separated-cut sep [] s,
  separated-cut sep (cur ++ c ∷ []) s,
  append_assoc cur (c ∷ []) s,
)

join-eq : (sep : ℕ) (ps : List Text) (s : Text) → separated sep ps ≡ sep ∷ s → join sep ps ≡ s
join-eq sep [] s h = cc
join-eq sep (p ∷ ps) s h = cc

-- The parts of a split spell the text.
pub join-split : (s : Text) (sep : ℕ) → join sep (split s sep) ≡ s
unfolding split
join-split s sep = join-eq sep (split s sep) s (separated-cut sep [] s)

cut-Lacks : (sep : ℕ) (cur s : Text) → Lacks sep cur → All (Lacks sep) (cut sep cur s)
unfolding cut
cut-Lacks sep cur [] h = (h, tt)
cut-Lacks sep cur (c ∷ s) h = elim (Bool-cases (c == sep)) [
  | inl e ↦ rw (e, cut) (h, cut-Lacks sep [] s tt)
  | inr e ↦
      rw (e, cut)
        (cut-Lacks sep (cur ++ c ∷ []) s (All-append _ cur (c ∷ []) h ((λ q. ground arith), tt)))
]

-- No part holds the separator.
pub split-Lacks : (s : Text) (sep : ℕ) → All (Lacks sep) (split s sep)
unfolding split
split-Lacks s sep = cut-Lacks sep [] s tt

cut_lacking :
    (sep : ℕ) (p rest cur : Text)
    → Lacks sep p
    → cut sep cur (p ++ sep ∷ rest) ≡ (cur ++ p) ∷ cut sep [] rest
unfolding cut
cut_lacking sep [] rest cur h = rw mathlib.Core.List.append-nil (ground arith)
cut_lacking sep (c ∷ p) rest cur (hc, h) =
    ground (arith, cut_lacking sep p rest (cur ++ c ∷ []) h, append_assoc cur (c ∷ []) p)

cut_last : (sep : ℕ) (p cur : Text) → Lacks sep p → cut sep cur p ≡ (cur ++ p) ∷ []
unfolding cut
cut_last sep [] cur h = rw mathlib.Core.List.append-nil
cut_last sep (c ∷ p) cur (hc, h) =
    ground (arith, cut_last sep p (cur ++ c ∷ []) h, append_assoc cur (c ∷ []) p)

-- The first part is what stands before the first separator.
pub split-append :
    (sep : ℕ) (p rest : Text) → Lacks sep p → split (p ++ sep ∷ rest) sep ≡ p ∷ split rest sep
unfolding split
split-append sep p rest h = cut_lacking sep p rest [] h

pub split_last : (sep : ℕ) (p : Text) → Lacks sep p → split p sep ≡ p ∷ []
unfolding split
split_last sep p h = cut_last sep p [] h

-- Trimming on the left leaves nothing, or a text whose first byte is not to be trimmed.
abbrev pub StartsClean : (ℕ → Bool) → Text → Type 0
StartsClean p [] = Unit
StartsClean p (c ∷ s) = p c ≡ false

pub trim_left-StartsClean : (p : ℕ → Bool) (s : Text) → StartsClean p (trim_left p s)
unfolding trim_left
trim_left-StartsClean p [] = tt
trim_left-StartsClean p (c ∷ s) = ground (arith, trim_left-StartsClean p s)

-- A text that does not end in a byte to be trimmed.
abbrev pub EndsClean : (ℕ → Bool) → Text → Type 0
EndsClean p s = (t : Text) (c : ℕ) → s ≡ t ++ c ∷ [] → p c ≡ false

pub trim_right-EndsClean : (p : ℕ → Bool) (s : Text) → EndsClean p (trim_right p s)
unfolding trim_right
trim_right-EndsClean p s t c e =
    let flipped : trim_left p (reverse s) ≡ c ∷ reverse t =
      sym (reverse-reverse _) ∙ (ap reverse e ∙ reverse-append t (c ∷ [])) in
    subst (StartsClean p) flipped (trim_left-StartsClean p (reverse s))
