-- ===== src/Wim/Image/Counted.antt =====
-- The entries of a directory are counted by `readdir` as the bytes that they take up.
use go_winio.Base.{
  ℕ, zero, suc, ◌+◌, ◌-◌, ◌%◌, ◌^◌, ◌<◌, ◌≡◌, ap, ◌∙◌, arith, List, [], ◌∷◌, length, length-drop,
  Option, none, some, Result, ok, err, panic, Returns, returns, fails, panics,
}
use go_winio.Wim.Source.{Source, WimError}
use go_winio.Wim.Resource.{FileData}
use go_winio.Wim.Directory.{File, read_next_entry}
use go_winio.Wim.Directory.Moves.{Moves, Moves-trans, Onward}
use go_winio.Wim.Directory.Entries.{EvenEntry, read_next_entry-Moves}
use go_winio.Wim.Image.{entry_rounds, read_entries}

-- What is asked of the reader behind an entry, and not behind the end of the directory.
abbrev pub Further : (Source → Type 0) → Option File → Source → Type 0
Further More none s = Unit {0}
Further More (some f) s = More s

module _ (decode : List ℕ → List ℕ) (files : FileData) (sds : List (List ℕ)) where
  -- All the entries up to the end of the directory have names of whole units.
  unfoldable pub EvenNames : ℕ → Source → Type 0
  EvenNames zero s = Unit {0}
  EvenNames (suc fuel) s =
      EvenEntry decode files sds s
      × Onward (λ ((e, n), s1). Further (EvenNames fuel) e s1) (read_next_entry decode files sds s)

  abbrev pub Counts : ℕ → Source → (List File × ℕ) × Source → Type 0
  Counts n s ((fs, total), s') = (m : ℕ) × (total ≡ n + m) × Moves m s s'

  after_round :
      (again : ℕ → Source → Result WimError ((List File × ℕ) × Source))
      → (More : Source → Type 0)
      → ((n : ℕ) (s : Source)
          → n + length s.bytes < 2 ^ 63
          → More s
          → Returns (Counts n s) (again n s))
      → (r : Result WimError ((Option File × ℕ) × Source)) (n : ℕ) (s : Source)
      → n + length s.bytes < 2 ^ 63
      → Returns (λ ((e, k), s'). Moves k s s') r
      → Onward (λ ((e, k), s1). Further More e s1) r
      → Returns (Counts n s) (elim r [
        | err e ↦ err e
        | panic ↦ panic
        | ok ((none, k), s1) ↦ ok (([], (n + k) % 2 ^ 64), s1)
        | ok ((some f, k), s1) ↦ elim (again ((n + k) % 2 ^ 64) s1) [
          | err e ↦ err e
          | panic ↦ panic
          | ok ((fs, m), s2) ↦ ok ((f ∷ fs, m), s2)
        ]
      ])
  after_round again More ih (err e) n s h r more = fails e
  after_round again More ih panic n s h r more = panics
  after_round again More ih (ok ((none, k), s1)) n s h (returns _ m) more =
      returns _ (k, omega (arith, h, m.0), m)
  after_round again More ih (ok ((some f, k), s1)) n s h (returns _ m) more =
      let left : length s1.bytes ≡ length s.bytes - k =
        ap (λ (x : Source). length x.bytes) m.1 ∙ length-drop k s.bytes in
      let sum : (n + k) % 2 ^ 64 ≡ n + k = omega (arith, h, m.0) in
      rest (again ((n + k) % 2 ^ 64) s1)
        (ih ((n + k) % 2 ^ 64) s1 (omega (arith, sum, left, h, m.0)) more) sum
    where
      rest :
          (x : Result WimError ((List File × ℕ) × Source))
          → Returns (Counts ((n + k) % 2 ^ 64) s1) x
          → (n + k) % 2 ^ 64 ≡ n + k
          → Returns
              (Counts n s)
              (elim x [ err e ↦ err e | panic ↦ panic | ok ((fs, m), s2) ↦ ok ((f ∷ fs, m), s2) ])
      rest (err e) r sum = fails e
      rest panic r sum = panics
      rest (ok ((fs, total), s2)) (returns _ (j, e, m')) sum =
          returns _ (k + j, omega (arith, e, sum), Moves-trans k j s s1 s2 m m')

  entry_rounds-Counts :
      (fuel n : ℕ) (s : Source)
      → n + length s.bytes < 2 ^ 63
      → EvenNames fuel s
      → Returns (Counts n s) (entry_rounds decode files sds fuel n s)
  unfolding entry_rounds EvenNames
  entry_rounds-Counts zero n s h even = fails _
  entry_rounds-Counts (suc fuel) n s h (even, later) =
      after_round (λ k t. entry_rounds decode files sds fuel k t) (EvenNames fuel)
        (λ k t. entry_rounds-Counts fuel k t) (read_next_entry decode files sds s) n s h
        (read_next_entry-Moves decode files sds s (omega (arith, h)) even) later

  pub read_entries-Counts :
      (s : Source)
      → length s.bytes < 2 ^ 62
      → EvenNames (suc (length s.bytes)) s
      → Returns (Counts 0 s) (read_entries decode files sds s)
  unfolding read_entries
  read_entries-Counts s h even =
      entry_rounds-Counts (suc (length s.bytes)) 0 s (omega (arith, h)) even
