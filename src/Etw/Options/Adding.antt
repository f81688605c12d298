-- ===== src/Etw/Options/Adding.antt =====
-- What an option adds to an event is read back as fields.
use go_winio.Base.{
  ℕ, suc, ◌+◌, ◌-◌, ◌%◌, ◌^◌, ◌≤◌, ◌<◌, ◌≡◌, ◌≢◌, refl, sym, ap, ◌∙◌, arith, true, false, List, [],
  ◌∷◌, ◌++◌, append-nil, append_assoc, length, length-append, All, Option, none, some, leb, ltb,
  le→leb, ◌==◌, bit_or,
}
use go_winio.Base.Word.{le16, le_field}
use go_winio.Etw.Metadata.{EventMetadata, write_field_inner, write_field, write_array, write_struct}
use go_winio.Etw.Metadata.Fields.{read_field, write_field_inner_bytes}
use go_winio.Etw.Payload.{EventData, write_uint16}
use go_winio.Etw.Options.{
  Event, FieldOpt, with_data, field, array, write_values, apply_all, struct_field,
}
use go_winio.Etw.Options.Reading.{
  Datum, Content, one, several, members, Item, Items, item_of, behind, as_several, joined,
  read_datum, read_data, read_content, read_item, read_items, then_read, read_items_add,
}
use go_winio.Etw.Options.Coding.{with_bytes, Coded, AllCoded}

-- An option appends bytes to the metadata and to the data that are read as the fields.
unfoldable pub Adds : FieldOpt → List Item → Type 0
Adds opt its =
    (e : Event)
    → (m d : List ℕ) × (opt e
        ≡ some (record { em = record { buffer = e.em.buffer ++ m }; ed = with_bytes e.ed d }))
      × ((ms ds : List ℕ) → read_items (length its) (m ++ ms) (d ++ ds) ≡ some (its, ms, ds))

-- A field that is read, with the contents of its kind.
item_step :
    (name : List ℕ) (i o t n : ℕ) (c : Content) (ms ms' ds ds' : List ℕ)
    → read_field ms ≡ some (name, (i, o, t, ms'))
    → read_content i o ds ≡ some (c, ds')
    → read_items (suc n) ms ds ≡ behind (item_of name i o c) (read_items n ms' ds')
unfolding read_items read_item
item_step name i o t n c ms ms' ds ds' e e' = rw (read_items, read_item, e, e') refl

single_content :
    (i o : ℕ) (d : Datum) (ds ds' : List ℕ)
    → i < 24
    → read_datum i ds ≡ some (d, ds')
    → read_content i o ds ≡ some (one d, ds')
unfolding read_content
single_content i o d ds ds' h e =
    let plain : (i == 24) ≡ false = ground (arith, h) in
    let single : ltb i 64 ≡ true = ground (arith, h) in rw (plain, single, e) refl

-- The field of one value.
pub field-Adds {ℓ} :
    {A : Type ℓ} (write : EventData → A → EventData) (i o : ℕ) (name : List ℕ) (v : A) (d : Datum)
    → All (λ c. c ≢ 0) name
    → i < 24
    → o < 128
    → Coded i write v d
    → Adds (field write i o name v) (item_of name i o (one d) ∷ [])
unfolding Adds write_field read_items
field-Adds write i o name v d h hi ho (b, pw, pr) = λ e.
    (let (m, em, mr) = write_field_inner_bytes e.em name i o 0 0 h (omega (arith, hi)) ho in
      (
        m,
        b,
        ap (λ (x : Option EventMetadata). with_data x (write e.ed v)) em
            ∙ ap (λ (x : EventData). with_data (some (record { buffer = e.em.buffer ++ m })) x)
                (pw e.ed),
        λ ms ds.
            item_step name i o _ 0 (one d) (m ++ ms) ms (b ++ ds) ds (mr ms)
              (single_content i o d (b ++ ds) ds hi (pr ds)),
      ))

several_content :
    (i o n : ℕ) (bs rest : List ℕ) (ds : List Datum)
    → 64 ≤ i
    → n < 2 ^ 16
    → read_data (i - 64) n (bs ++ rest) ≡ some (ds, rest)
    → read_content i o ((le16 n ++ bs) ++ rest) ≡ some (several ds, rest)
unfolding read_content
several_content i o n bs rest ds h fits e =
    let plain : (i == 24) ≡ false = ground (arith, h) in
    let many : ltb i 64 ≡ false = ground (arith, h) in
    let room : leb 2 (length ((le16 n ++ bs) ++ rest)) ≡ true = le→leb 2 _ (omega arith) in
    let count : le_field 0 2 ((le16 n ++ bs) ++ rest) ≡ n = omega (arith, fits) in
    rw (plain, many, room)
      (ap (λ (k : ℕ). as_several (read_data (i - 64) k (bs ++ rest))) count
        ∙ ap (λ (x : Option (List Datum × List ℕ)). as_several x) e)

-- The field of a slice: its type has the bit 64.
pub array-Adds {ℓ} :
    {A : Type ℓ} (write : EventData → A → EventData) (i o : ℕ) (name : List ℕ) (vs : List A)
    (ds : List Datum)
    → All (λ c. c ≢ 0) name
    → bit_or i 64 ≡ i + 64
    → i < 24
    → o < 128
    → length vs < 2 ^ 16
    → AllCoded i write vs ds
    → Adds (array write i o name vs) (item_of name (i + 64) o (several ds) ∷ [])
unfolding Adds write_array read_items write_uint16
array-Adds write i o name vs ds h flag hi ho few (b, pw, pr) = λ e.
    (let (m, em, mr) = write_field_inner_bytes e.em name (i + 64) o 0 0 h (omega (arith, hi)) ho in
      let count : length vs % 2 ^ 16 ≡ length vs = omega (arith, few) in
      let written : write_values write (write_uint16 e.ed (length vs % 2 ^ 16)) vs
          ≡ with_bytes e.ed (le16 (length vs) ++ b) =
        ap (λ (k : ℕ). write_values write (write_uint16 e.ed k) vs) count
        ∙ pw (with_bytes e.ed (le16 (length vs)))
        ∙ ap (λ (x : List ℕ). record { buffer = x })
            (append_assoc e.ed.buffer (le16 (length vs)) b) in
      let base : i + 64 - 64 ≡ i = omega arith in
      (
        m,
        le16 (length vs) ++ b,
        ap (λ (x : EventData). with_data (write_field_inner e.em name (bit_or i 64) o 0 0) x)
              written
            ∙ ap
                (λ (k : ℕ).
                  with_data (write_field_inner e.em name k o 0 0)
                    (with_bytes e.ed (le16 (length vs) ++ b)))
                flag
            ∙ ap
                (λ (x : Option EventMetadata).
                  with_data x (with_bytes e.ed (le16 (length vs) ++ b)))
                em,
        λ ms rest.
            item_step name (i + 64) o _ 0 (several ds) (m ++ ms) ms
              ((le16 (length vs) ++ b) ++ rest) rest (mr ms)
              (several_content (i + 64) o (length vs) b rest ds (omega arith) few
                (ap (λ (k : ℕ). read_data k (length vs) (b ++ rest)) base ∙ pr rest)),
      ))

-- The options of a struct one behind the other.
pub nothing-Adds : Adds (apply_all []) []
unfolding Adds read_items
nothing-Adds = λ e. (
  [],
  [],
  (λ i. some (record {
    em = record { buffer = sym (append-nil e.em.buffer) i };
    ed = record { buffer = sym (append-nil e.ed.buffer) i };
  })),
  λ ms ds. refl,
)

pub both-Adds :
    (opt : FieldOpt) (opts : List FieldOpt) (xs ys : List Item)
    → Adds opt xs
    → Adds (apply_all opts) ys
    → Adds (apply_all (opt ∷ opts)) (xs ++ ys)
unfolding Adds
both-Adds opt opts xs ys first more = λ e.
    (let (m, d, p, r) = first e in
      let e1 : Event = record {
        em = record { buffer = e.em.buffer ++ m };
        ed = with_bytes e.ed d;
      } in
      let (m', d', p', r') = more e1 in
      (
        m ++ m',
        d ++ d',
        ap
              (λ (x : Option Event). elim x as (λ _. Option Event) [
                | none ↦ none
                | some e' ↦ apply_all opts e'
              ])
              p
            ∙ p'
            ∙ (λ i. some (record {
              em = record { buffer = append_assoc e.em.buffer m m' i };
              ed = record { buffer = append_assoc e.ed.buffer d d' i };
            })),
        λ ms ds.
            ap (λ (k : ℕ). read_items k ((m ++ m') ++ ms) ((d ++ d') ++ ds)) (length-append xs ys)
            ∙ read_items_add (length xs) (length ys) ((m ++ m') ++ ms) ((d ++ d') ++ ds)
            ∙ ap
                (λ (a : List ℕ). then_read (length ys) (read_items (length xs) a ((d ++ d') ++ ds)))
                (append_assoc m m' ms)
            ∙ ap
                (λ (a : List ℕ). then_read (length ys) (read_items (length xs) (m ++ (m' ++ ms)) a))
                (append_assoc d d' ds)
            ∙ ap (λ (x : Items). then_read (length ys) x) (r (m' ++ ms) (d' ++ ds))
            ∙ ap (λ (x : Items). joined xs x) (r' ms ds),
      ))

members_content : (o : ℕ) (ds : List ℕ) → read_content 24 o ds ≡ some (members o, ds)
unfolding read_content
members_content o ds = refl

-- A struct of fewer than 128 fields.
pub struct-Adds :
    (name : List ℕ) (opts : List FieldOpt) (n : ℕ) (its : List Item)
    → All (λ c. c ≢ 0) name
    → length opts ≡ n
    → n < 128
    → Adds (apply_all opts) its
    → Adds (struct_field name opts) (item_of name 24 n (members n) ∷ its)
unfolding Adds write_struct
struct-Adds name opts n its h same few more = λ e.
    (let (m, em, mr) = write_field_inner_bytes e.em name 24 n 0 0 h (omega arith) few in
      let e1 : Event = record e { em = record { buffer = e.em.buffer ++ m } } in
      let (m', d', p', r') = more e1 in
      let count : length opts % 2 ^ 8 ≡ n = omega (arith, same, few) in
      let with_fields : Option EventMetadata → Option Event = λ x. elim x as (λ _. Option Event) [
        | none ↦ none
        | some em ↦ apply_all opts (record e { em = em })
      ] in
      (
        m ++ m',
        d',
        ap (λ (k : ℕ). with_fields (write_field_inner e.em name 24 k 0 0)) count
            ∙ ap with_fields em
            ∙ p'
            ∙ (λ i. some (record {
              em = record { buffer = append_assoc e.em.buffer m m' i };
              ed = with_bytes e.ed d';
            })),
        λ ms ds.
            ap (λ (a : List ℕ). read_items (suc (length its)) a (d' ++ ds)) (append_assoc m m' ms)
            ∙ item_step name 24 n _ (length its) (members n) (m ++ (m' ++ ms)) (m' ++ ms) (d' ++ ds)
                (d' ++ ds) (mr (m' ++ ms)) (members_content n (d' ++ ds))
            ∙ ap (λ (x : Items). behind (item_of name 24 n (members n)) x) (r' ms ds),
      ))
