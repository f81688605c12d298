-- ===== src/Etw/Options/Reading.antt =====
-- A reading of the fields of an event, after the format that its metadata describe.
use go_winio.Base.{
  ℕ, zero, suc, ◌+◌, ◌-◌, ◌%◌, ◌≡◌, refl, ap, ◌∙◌, arith, ◌||◌, List, [], ◌∷◌, ◌++◌, length, take,
  drop, Option, none, some, leb, ltb, ◌==◌, if◌then◌else◌,
}
use go_winio.Base.Word.{le_value, le_field}
use go_winio.Etw.Metadata.Fields.{NamedRest, Types, read_name, read_field}

pub data Datum : Type 0 where
  number : ℕ → Datum
  text : List ℕ → Datum

-- One value, the values of a slice, or how many of the next fields belong to a struct.
pub data Content : Type 0 where
  one : Datum → Content
  several : List Datum → Content
  members : ℕ → Content

pub record Item : Type 0 where
  pub name : List ℕ
  pub in_type : ℕ
  pub out_type : ℕ
  pub content : Content

-- The bytes of a number.
abbrev pub width : ℕ → ℕ
width i =
    if ltb i 5
    then 1
    else if ltb i 7
    then 2
    else if i == 7 || i == 8 || i == 11 || i == 20
    then 4
    else 8

abbrev as_text : Option NamedRest → Option (Datum × List ℕ)
as_text none = none
as_text (some (t, rest)) = some (text t, rest)

unfoldable pub read_datum : ℕ → List ℕ → Option (Datum × List ℕ)
unfolding read_name
read_datum i bs =
    if i == 2
    then as_text (read_name bs)
    else if leb (width i) (length bs)
    then some (number (le_value (take (width i) bs)), drop (width i) bs)
    else none

abbrev pub before : Datum → Option (List Datum × List ℕ) → Option (List Datum × List ℕ)
before d none = none
before d (some (ds, rest)) = some (d ∷ ds, rest)

unfoldable pub read_data : ℕ → ℕ → List ℕ → Option (List Datum × List ℕ)
unfolding read_datum
read_data i zero bs = some ([], bs)
read_data i (suc n) bs = elim (read_datum i bs) [
  | none ↦ none
  | some (d, rest) ↦ before d (read_data i n rest)
]

abbrev as_one : Option (Datum × List ℕ) → Option (Content × List ℕ)
as_one none = none
as_one (some (d, rest)) = some (one d, rest)

abbrev pub as_several : Option (List Datum × List ℕ) → Option (Content × List ℕ)
as_several none = none
as_several (some (ds, rest)) = some (several ds, rest)

-- The type 24 is that of a struct, and the bit 64 that of a slice, which has its length in two bytes.
unfoldable pub read_content : ℕ → ℕ → List ℕ → Option (Content × List ℕ)
unfolding read_datum read_data
read_content i o bs =
    if i == 24
    then some (members o, bs)
    else if ltb i 64
    then as_one (read_datum i bs)
    else if leb 2 (length bs)
    then as_several (read_data (i - 64) (le_field 0 2 bs) (drop 2 bs))
    else none

abbrev pub Items : Type 0
Items = Option (List Item × List ℕ × List ℕ)

abbrev pub item_of : List ℕ → ℕ → ℕ → Content → Item
item_of name i o c = record { name = name; in_type = i % 64; out_type = o; content = c }

abbrev pub with_content :
    List ℕ → ℕ → ℕ → List ℕ → Option (Content × List ℕ) → Option (Item × List ℕ × List ℕ)
with_content name i o ms none = none
with_content name i o ms (some (c, ds)) = some (item_of name i o c, ms, ds)

abbrev pub with_field : List ℕ → Option (List ℕ × Types) → Option (Item × List ℕ × List ℕ)
with_field ds none = none
with_field ds (some (name, (i, o, tags, ms))) = with_content name i o ms (read_content i o ds)

unfoldable pub read_item : List ℕ → List ℕ → Option (Item × List ℕ × List ℕ)
unfolding read_content
read_item ms ds = with_field ds (read_field ms)

abbrev pub behind : Item → Items → Items
behind it none = none
behind it (some (its, ms, ds)) = some (it ∷ its, ms, ds)

-- So many fields from the metadata and the data.
unfoldable pub read_items : ℕ → List ℕ → List ℕ → Items
unfolding read_item
read_items zero ms ds = some ([], ms, ds)
read_items (suc n) ms ds = elim (read_item ms ds) [
  | none ↦ none
  | some (it, ms', ds') ↦ behind it (read_items n ms' ds')
]

-- The fields behind those that were read.
abbrev pub joined : List Item → Items → Items
joined its none = none
joined its (some (more, ms, ds)) = some (its ++ more, ms, ds)

abbrev pub then_read : ℕ → Items → Items
then_read n none = none
then_read n (some (its, ms, ds)) = joined its (read_items n ms ds)

joined_none : (r : Items) → r ≡ joined [] r
joined_none none = refl
joined_none (some (its, ms, ds)) = refl

behind_then :
    (n : ℕ) (it : Item) (r : Items) → behind it (then_read n r) ≡ then_read n (behind it r)
behind_then n it none = refl
behind_then n it (some (its, ms, ds)) = last (read_items n ms ds)
  where
    last : (r : Items) → behind it (joined its r) ≡ joined (it ∷ its) r
    last none = refl
    last (some (more, ms', ds')) = refl

pub read_items_add :
    (m n : ℕ) (ms ds : List ℕ) → read_items (m + n) ms ds ≡ then_read n (read_items m ms ds)
unfolding read_items
read_items_add zero n ms ds =
    let same : 0 + n ≡ n = omega arith in
    ap (λ (k : ℕ). read_items k ms ds) same ∙ joined_none (read_items n ms ds)
read_items_add (suc m) n ms ds =
    let same : suc m + n ≡ suc (m + n) = omega arith in
    ap (λ (k : ℕ). read_items k ms ds) same
    ∙ first (λ ms' ds'. read_items_add m n ms' ds') (read_item ms ds)
  where
    first :
        ((ms' ds' : List ℕ) → read_items (m + n) ms' ds' ≡ then_read n (read_items m ms' ds'))
        → (r : Option (Item × List ℕ × List ℕ))
        → ◌≡◌ {A = Items}
            (elim r [ none ↦ none | some (it, ms', ds') ↦ behind it (read_items (m + n) ms' ds') ])
            (then_read n
              (elim r [ none ↦ none | some (it, ms', ds') ↦ behind it (read_items m ms' ds') ]))
    first ih none = refl
    first ih (some (it, ms', ds')) =
        ap (λ (r : Items). behind it r) (ih ms' ds') ∙ behind_then n it (read_items m ms' ds')
