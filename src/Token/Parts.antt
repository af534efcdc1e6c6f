-- ===== src/Token/Parts.antt =====
-- The three parts of a token.
use ztxbas.Base.{◌≡◌, ◌↔◌, sym, ◌∙◌, ap, subst, [], ◌∷◌, ◌++◌, All}
use ztxbas.Base.Text.{Text, Lacks}
use ztxbas.Go.Strings.{split}
use ztxbas.Go.Strings.Parts.{join, join-split, split-Lacks, split-append, split_last}

-- The token is three texts without a dot, with dots between them.
pub record IsToken (token header payload sig : Text) : Type 0 where
  pub spelled : token ≡ header ++ b'.' ∷ (payload ++ b'.' ∷ sig)
  pub header_clear : Lacks b'.' header
  pub payload_clear : Lacks b'.' payload
  pub sig_clear : Lacks b'.' sig

-- `strings.Split` gives three parts exactly for such a token.
pub split_iff :
    (token header payload sig : Text)
    → (split token b'.' ≡ header ∷ payload ∷ sig ∷ []) ↔ IsToken token header payload sig
split_iff token header payload sig = (there, back)
  where
    there : split token b'.' ≡ header ∷ payload ∷ sig ∷ [] → IsToken token header payload sig
    there e =
        let (h, (p, (s, _))) = subst (All (Lacks b'.')) e (split-Lacks token b'.') in
        record {
          spelled = sym (join-split token b'.') ∙ (ap (join b'.') e ∙ tail_nil);
          header_clear = h;
          payload_clear = p;
          sig_clear = s;
        }
      where
        tail_nil :
            join b'.' (header ∷ payload ∷ sig ∷ []) ≡ header ++ b'.' ∷ (payload ++ b'.' ∷ sig)
        tail_nil = rw mathlib.Core.List.append-nil

    back : IsToken token header payload sig → split token b'.' ≡ header ∷ payload ∷ sig ∷ []
    back t = rw (
      t.spelled,
      split-append b'.' header (payload ++ b'.' ∷ sig) t.header_clear,
      split-append b'.' payload sig t.payload_clear,
      split_last b'.' sig t.sig_clear,
    )
