-- ===== src/Go/Json.antt =====
-- `encoding/json` as far as the SDK's structs go: a document as a tree, and what `Unmarshal` does
-- with it at a struct. The text of a document is parsed and printed by the library, which is a
-- parameter (Runtime.antt).
use ztxbas.Base.{
  ℕ, zero, suc, ◌+◌, ◌-◌, ◌*◌, ◌^◌, Bool, true, false, ◌&&◌, List, [], ◌∷◌, Option, none, some,
  ◌==◌, leb, if◌then◌else◌,
}
use ztxbas.Base.Int.{ℤ, pos, negsuc}
use ztxbas.Base.Text.{Text, same}

-- A number is kept as its literal.
mutual
  pub data Json : Type 0 where
    null : Json
    bool : Bool → Json
    num : Text → Json
    str : Text → Json
    arr : Items → Json
    obj : Members → Json

  pub data Items : Type 0 where
    nil : Items
    item : Json → Items → Items

  pub data Members : Type 0 where
    end : Members
    member : Text → Json → Members → Members

-- `strconv.ParseInt(s, 10, 64)` at a JSON number.
scan_digits : ℕ → Text → Option ℕ
scan_digits n [] = some n
scan_digits n (c ∷ s) =
    let rest = scan_digits (n * 10 + (c - b'0')) s in
    if leb b'0' c && leb c b'9' then rest else none

in_range : Option ℕ → ℕ → (ℕ → ℤ) → Option ℤ
in_range none limit sign = none
in_range (some n) limit sign = if leb n limit then some (sign n) else none

negative : ℕ → ℤ
negative zero = pos 0
negative (suc n) = negsuc n

unfoldable pub parse_int : Text → Option ℤ
unfolding scan_digits in_range negative
parse_int [] = none
parse_int (c ∷ s) =
    if c == b'-'
    then in_range (scan_digits 0 s) (2 ^ 63) negative
    else in_range (scan_digits 0 (c ∷ s)) (2 ^ 63 - 1) pos

-- How `Unmarshal` sets a field: the new value, and whether the types fit. Where they do not, the
-- field keeps its value and `Unmarshal` goes on and returns an error at the end.
abbrev pub Setter : Type 0 → Type 0
Setter S = Json → S → S × Bool

unfoldable pub set_text : Setter Text
set_text null old = (old, true)
set_text (str t) old = (t, true)
set_text _ old = (old, false)

unfoldable pub set_bool : Setter Bool
set_bool null old = (old, true)
set_bool (bool b) old = (b, true)
set_bool _ old = (old, false)

set_literal : Option ℤ → ℤ → ℤ × Bool
set_literal none old = (old, false)
set_literal (some z) old = (z, true)

unfoldable pub set_int : Setter ℤ
unfolding set_literal
set_int null old = (old, true)
set_int (num t) old = set_literal (parse_int t) old
set_int _ old = (old, false)

-- A field's key under `encoding/json`'s folding: ASCII letters in upper case, and the two other
-- characters that fold to such a letter, ſ (bytes 0xc5 and 0xbf) and the Kelvin sign (bytes 0xe2, 0x84, 0xaa).
pub fold_key : Text → Text
fold_key [] = []
fold_key (a ∷ []) = (if leb b'a' a && leb a b'z' then a - 32 else a) ∷ []
fold_key (a ∷ b ∷ []) =
    if a == 0xc5 && b == 0xbf
    then b'S' ∷ []
    else (if leb b'a' a && leb a b'z' then a - 32 else a) ∷ fold_key (b ∷ [])
fold_key (a ∷ b ∷ c ∷ s) =
    let long = b'S' ∷ fold_key (c ∷ s) in
    let kelvin = b'K' ∷ fold_key s in
    let plain = (if leb b'a' a && leb a b'z' then a - 32 else a) ∷ fold_key (b ∷ c ∷ s) in
    if a == 0xc5 && b == 0xbf
    then long
    else if a == 0xe2 && b == 0x84 && c == 0xaa
    then kelvin
    else plain

module _ {S : Type 0} where
  -- The field of exactly that name, or else the first one of that folded name.
  pub find_exact : Text → List (Text × Setter S) → Option (Setter S)
  find_exact k [] = none
  find_exact k ((name, f) ∷ fs) = if same name k then some f else find_exact k fs

  pub find_folded : Text → List (Text × Setter S) → Option (Setter S)
  find_folded k [] = none
  find_folded k ((name, f) ∷ fs) =
      if same (fold_key name) (fold_key k) then some f else find_folded k fs

  pub find_field : Text → List (Text × Setter S) → Option (Setter S)
  unfolding find_exact find_folded fold_key
  find_field k fs = elim (find_exact k fs) [ some f ↦ some f | none ↦ find_folded k fs ]

  -- A key with no field is skipped.
  pub set_member : Option (Setter S) → Json → S → S × Bool
  set_member none j s = (s, true)
  set_member (some f) j s = f j s

  pub set_members : List (Text × Setter S) → Members → S → S × Bool
  set_members fs end s = (s, true)
  set_members fs (member k j ms) s =
      let (s', fits) = set_member (find_field k fs) j s in
      let (s'', fit) = set_members fs ms s' in (s'', fits && fit)

  -- `Unmarshal` of a document into a struct with these fields.
  unfoldable pub set_struct : List (Text × Setter S) → Setter S
  unfolding set_members set_member find_field
  set_struct fs null s = (s, true)
  set_struct fs (obj ms) s = set_members fs ms s
  set_struct fs _ s = (s, false)

  unfoldable pub set_items : Setter S → S → Items → List S × Bool
  set_items f blank nil = ([], true)
  set_items f blank (item j js) =
      let (x, fits) = f j blank in let (xs, fit) = set_items f blank js in (x ∷ xs, fits && fit)

  -- A slice: each element starts as the zero value. A member that stands twice is set afresh, where encoding/json
  -- starts from the elements that the first one left.
  unfoldable pub set_list : Setter S → S → Setter (List S)
  unfolding set_items
  set_list f blank null old = ([], true)
  set_list f blank (arr js) old = set_items f blank js
  set_list f blank _ old = (old, false)
