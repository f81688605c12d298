-- ===== src/Wim/Image/Security.antt =====
-- `readSecurityDescriptors` reads a table of descriptors.
use go_winio.Base.{
  ℕ, ◌+◌, ◌-◌, ◌*◌, ◌/◌, ◌%◌, ◌^◌, ◌<◌, ◌≡◌, refl, sym, ap, ◌∙◌, arith, false, List, [], ◌∷◌, ◌++◌,
  append_assoc, length, length-append, take-append, drop-append, replicate, length-replicate, ltb,
  le→leb, not-ltb, ok, >>=-ok, fail_if-false,
}
use go_winio.Base.Word.{le32, le64, le_value, le_field}
use go_winio.Io.{IoError}
use go_winio.Wim.Source.{
  Source, WimError, oper_error, security_descriptor, security_table, security_table_sizes, reading,
  read_bytes, discard,
}
use go_winio.Wim.Image.{size_list, descriptor_rounds, read_security_descriptors}

-- The bytes of the table: the lengths of it and of each descriptor, the descriptors, and the padding to
-- eight bytes.
abbrev pub flat : List (List ℕ) → List ℕ
flat [] = []
flat (sd ∷ sds) = sd ++ flat sds

abbrev pub descriptor_sizes : List (List ℕ) → List ℕ
descriptor_sizes [] = []
descriptor_sizes (sd ∷ sds) = le64 (length sd) ++ descriptor_sizes sds

abbrev pub table_length : List (List ℕ) → ℕ
table_length sds = 8 + length sds * 8 + length (flat sds)

abbrev pub rounded : ℕ → ℕ
rounded n = (n + 7) / 8 * 8

abbrev pub table_bytes : List (List ℕ) → List ℕ
table_bytes sds =
    (le32 (table_length sds) ++ le32 (length sds))
    ++ (descriptor_sizes sds
        ++ (flat sds ++ replicate (rounded (table_length sds) - table_length sds) 0))

-- A read of bytes that stand in front.
read_front :
    (fault : IoError → WimError) (n : ℕ) (xs rest : List ℕ) (final : IoError)
    → length xs ≡ n
    → read_bytes fault n (record { bytes = xs ++ rest; final = final })
      ≡ ok (xs, record { bytes = rest; final = final })
unfolding read_bytes
read_front fault n xs rest final e =
    rw
      (
        sym e,
        le→leb (length xs) (length (xs ++ rest)) (omega (arith, length-append xs rest)),
        take-append xs rest,
        drop-append xs rest,
      )
      refl

discard_front :
    (fault : IoError → WimError) (n : ℕ) (xs rest : List ℕ) (final : IoError)
    → length xs ≡ n
    → discard fault n (record { bytes = xs ++ rest; final = final })
      ≡ ok (record { bytes = rest; final = final })
unfolding discard
discard_front fault n xs rest final e =
    rw
      (
        sym e,
        le→leb (length xs) (length (xs ++ rest)) (omega (arith, length-append xs rest)),
        drop-append xs rest,
      )
      refl

abbrev lengths : List (List ℕ) → List ℕ
lengths [] = []
lengths (sd ∷ sds) = length sd ∷ lengths sds

size_list-descriptor_sizes :
    (sds : List (List ℕ))
    → length (flat sds) < 2 ^ 32
    → size_list (length sds) (descriptor_sizes sds) ≡ lengths sds
unfolding size_list
size_list-descriptor_sizes [] h = refl
size_list-descriptor_sizes (sd ∷ sds) h =
    let n = length sd in
    let value : le_value (le64 n) ≡ n = omega (arith, length-append sd (flat sds)) in
    rw (size_list-descriptor_sizes sds (omega (arith, length-append sd (flat sds))))
      (ap (λ (k : ℕ). k ∷ lengths sds) value)

descriptor_rounds-flat :
    (sds : List (List ℕ)) (n : ℕ) (rest : List ℕ) (final : IoError)
    → length (flat sds) < 2 ^ 32
    → descriptor_rounds (lengths sds) n (record { bytes = flat sds ++ rest; final = final })
      ≡ ok ((sds, n + length (flat sds)), record { bytes = rest; final = final })
unfolding descriptor_rounds
descriptor_rounds-flat [] n rest final h =
    ap (λ (k : ℕ). ok (([], k), record { bytes = rest; final = final })) (omega arith)
descriptor_rounds-flat (sd ∷ sds) n rest final h =
    let all = length-append sd (flat sds) in
    let size : length sd ≡ length sd % 2 ^ 32 = omega (arith, all) in
    rw
      (
        append_assoc sd (flat sds) rest,
        descriptor_rounds,
        read_front (oper_error security_descriptor) (length sd % 2 ^ 32) sd (flat sds ++ rest) final
            size,
        descriptor_rounds-flat sds (n + length sd % 2 ^ 32) rest final (omega (arith, all)),
      )
      (ap (λ (k : ℕ). ok ((sd ∷ sds, k), record { bytes = rest; final = final }))
        (omega (arith, all)))

length-sizes : (sds : List (List ℕ)) → length (descriptor_sizes sds) ≡ length sds * 8
length-sizes [] = omega arith
length-sizes (sd ∷ sds) =
    omega (arith, length-append (le64 (length sd)) (descriptor_sizes sds), length-sizes sds)

read_descriptors :
    (sds : List (List ℕ)) (entries : ℕ) (rest : List ℕ) (final : IoError)
    → entries ≡ length sds
    → table_length sds < 2 ^ 32 - 8
    → descriptor_rounds
        (size_list entries (descriptor_sizes sds))
        (8 + entries * 8 % 2 ^ 32)
        (record { bytes = flat sds ++ rest; final = final })
      ≡ ok ((sds, table_length sds), record { bytes = rest; final = final })
read_descriptors sds entries rest final e h =
    let s : Source = record { bytes = flat sds ++ rest; final = final } in
    ap (λ (k : ℕ). descriptor_rounds (size_list k (descriptor_sizes sds)) (8 + k * 8 % 2 ^ 32) s) e
    ∙ ap (λ (ks : List ℕ). descriptor_rounds ks (8 + length sds * 8 % 2 ^ 32) s)
        (size_list-descriptor_sizes sds (omega (arith, h)))
    ∙ descriptor_rounds-flat sds (8 + length sds * 8 % 2 ^ 32) rest final (omega (arith, h))
    ∙ ap (λ (k : ℕ). ok ((sds, k), record { bytes = rest; final = final })) (omega (arith, h))

-- The table of fewer than 2^32 bytes in all is read, and the reader stands behind its padding.
pub read_security_descriptors_lem :
    (sds : List (List ℕ)) (rest : List ℕ) (final : IoError)
    → table_length sds < 2 ^ 32 - 8
    → read_security_descriptors (record { bytes = table_bytes sds ++ rest; final = final })
      ≡ ok ((sds, rounded (table_length sds)), record { bytes = rest; final = final })
unfolding read_security_descriptors
read_security_descriptors_lem sds rest final h =
    let total = table_length sds in
    let head = le32 total ++ le32 (length sds) in
    let sizes = descriptor_sizes sds in
    let pad = replicate {A = ℕ} (rounded total - total) 0 in
    let few : length sds * 8 < 2 ^ 32 = omega (arith, h) in
    let count : le_field 4 4 head ≡ length sds = omega (arith, few) in
    let all : le_field 0 4 head ≡ total = omega (arith, h) in
    let regroup : (head ++ (sizes ++ (flat sds ++ pad))) ++ rest
        ≡ head ++ (sizes ++ (flat sds ++ (pad ++ rest))) =
      simp append_assoc in
    let size : (le_field 0 4 head + 7) % 2 ^ 32 / 8 * 8 ≡ rounded total = omega (arith, all, h) in
    let room : ltb ((le_field 0 4 head + 7) % 2 ^ 32 / 8 * 8) total ≡ false =
      not-ltb _ total (omega (arith, size)) in
    let padding : length pad ≡ (le_field 0 4 head + 7) % 2 ^ 32 / 8 * 8 - total =
      length-replicate _ _ ∙ omega (arith, size) in
    ap (λ (bs : List ℕ). read_security_descriptors (record { bytes = bs; final = final })) regroup
    ∙ >>=-ok _
        (read_front (oper_error security_table) 8 head (sizes ++ (flat sds ++ (pad ++ rest))) final
          (omega arith))
        (>>=-ok _
          (read_front (oper_error security_table_sizes) (le_field 4 4 head * 8) sizes
            (flat sds ++ (pad ++ rest)) final (omega (arith, length-sizes sds, count)))
          (>>=-ok _ (read_descriptors sds (le_field 4 4 head) (pad ++ rest) final count h) (
            fail_if-false _ room (
              >>=-ok _ (discard_front (λ e. reading e) _ pad rest final padding)
                (ap (λ (k : ℕ). ok ((sds, k), record { bytes = rest; final = final })) size)))))
