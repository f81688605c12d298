-- ===== src/Etw/Options/Coding.antt =====
-- How the values of a field are written and read back.
use go_winio.Base.{
  ℕ, suc, ◌^◌, ◌<◌, ◌≡◌, ◌≢◌, refl, sym, ap, ◌∙◌, arith, false, List, [], ◌∷◌, ◌++◌, append-nil,
  append_assoc, length, length-append, take-append, drop-append, All, some, le→leb, ◌==◌,
}
use go_winio.Base.Word.{le16, le32, le64, le_value}
use go_winio.Etw.Metadata.Fields.{read_name-append}
use go_winio.Etw.Payload.{
  EventData, write_string, write_uint8, write_uint16, write_uint32, write_uint64,
}
use go_winio.Etw.Options.{write_values}
use go_winio.Etw.Options.Reading.{Datum, number, text, width, read_datum, read_data}

abbrev pub with_bytes : EventData → List ℕ → EventData
with_bytes ed bytes = record { buffer = ed.buffer ++ bytes }

-- A write of a value appends bytes that are read as the datum.
abbrev pub Coded {ℓ} : {A : Type ℓ} → ℕ → (EventData → A → EventData) → A → Datum → Type 0
Coded i write v d =
    (bytes : List ℕ) × ((ed : EventData) → write ed v ≡ with_bytes ed bytes)
    × ((rest : List ℕ) → read_datum i (bytes ++ rest) ≡ some (d, rest))

pub number_lem :
    (i v : ℕ) (bytes rest : List ℕ)
    → (i == 2) ≡ false
    → length bytes ≡ width i
    → le_value bytes ≡ v
    → read_datum i (bytes ++ rest) ≡ some (number v, rest)
unfolding read_datum
number_lem i v bytes rest not_text size value =
    rw
      (
        not_text,
        sym size,
        le→leb (length bytes) (length (bytes ++ rest)) (omega (arith, length-append bytes rest)),
        take-append bytes rest,
        drop-append bytes rest,
        value,
      )
      refl

pub byte-Coded : (i v : ℕ) → (i == 2) ≡ false → width i ≡ 1 → Coded i write_uint8 v (number v)
unfolding write_uint8
byte-Coded i v e w =
    (v ∷ [], λ ed. refl, λ rest. number_lem i v (v ∷ []) rest e (sym w) (omega arith))

pub string-Coded : (s : List ℕ) → All (λ c. c ≢ 0) s → Coded 2 write_string s (text s)
unfolding write_string read_datum
string-Coded s h = (
  s ++ (0 ∷ []),
  λ ed. ap (λ (b : List ℕ). record { buffer = b }) (append_assoc ed.buffer s (0 ∷ [])),
  λ rest. rw (append_assoc s (0 ∷ []) rest, read_name-append s rest h) refl,
)

pub word-Coded :
    (i v : ℕ) → (i == 2) ≡ false → width i ≡ 2 → v < 2 ^ 16 → Coded i write_uint16 v (number v)
unfolding write_uint16
word-Coded i v e w h =
    (le16 v, λ ed. refl, λ rest. number_lem i v (le16 v) rest e (sym w) (omega (arith, h)))

pub long-Coded :
    (i v : ℕ) → (i == 2) ≡ false → width i ≡ 4 → v < 2 ^ 32 → Coded i write_uint32 v (number v)
unfolding write_uint32
long-Coded i v e w h =
    (le32 v, λ ed. refl, λ rest. number_lem i v (le32 v) rest e (sym w) (omega (arith, h)))

pub quad-Coded :
    (i v : ℕ) → (i == 2) ≡ false → width i ≡ 8 → v < 2 ^ 64 → Coded i write_uint64 v (number v)
unfolding write_uint64
quad-Coded i v e w h =
    (le64 v, λ ed. refl, λ rest. number_lem i v (le64 v) rest e (sym w) (omega (arith, h)))

-- The values of a slice one behind the other.
abbrev pub AllCoded {ℓ} :
    {A : Type ℓ} → ℕ → (EventData → A → EventData) → List A → List Datum → Type 0
AllCoded i write vs ds =
    (bytes : List ℕ) × ((ed : EventData) → write_values write ed vs ≡ with_bytes ed bytes)
    × ((rest : List ℕ) → read_data i (length vs) (bytes ++ rest) ≡ some (ds, rest))

abbrev pub map_all {ℓ} : {A : Type ℓ} → (A → Datum) → List A → List Datum
map_all f [] = []
map_all f (v ∷ vs) = f v ∷ map_all f vs

data_step :
    (i n : ℕ) (bs r r' : List ℕ) (d : Datum) (ds : List Datum)
    → read_datum i bs ≡ some (d, r)
    → read_data i n r ≡ some (ds, r')
    → read_data i (suc n) bs ≡ some (d ∷ ds, r')
unfolding read_data
data_step i n bs r r' d ds e e' = rw (read_data, e, e') refl

pub values-Coded {ℓ κ} :
    {A : Type ℓ} {P : A → Type κ} (i : ℕ) (write : EventData → A → EventData) (f : A → Datum)
    → ((v : A) → P v → Coded i write v (f v))
    → (vs : List A) → All P vs
    → AllCoded i write vs (map_all f vs)
unfolding read_data
values-Coded i write f coded [] h = (
  [],
  λ ed. ap (λ (b : List ℕ). record { buffer = b }) (sym (append-nil ed.buffer)),
  λ rest. refl,
)
values-Coded i write f coded (v ∷ vs) (p, ps) =
    let (b, pw, pr) = coded v p in
    let (bs, qw, qr) = values-Coded i write f coded vs ps in
    (
      b ++ bs,
      λ ed.
          ap (λ (x : EventData). write_values write x vs) (pw ed)
          ∙ qw (with_bytes ed b)
          ∙ ap (λ (x : List ℕ). record { buffer = x }) (append_assoc ed.buffer b bs),
      λ rest.
          ap (λ (x : List ℕ). read_data i (length (v ∷ vs)) x) (append_assoc b bs rest)
          ∙ data_step i (length vs) (b ++ (bs ++ rest)) (bs ++ rest) rest (f v) (map_all f vs)
              (pr (bs ++ rest)) (qr rest),
    )
