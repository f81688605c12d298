-- ===== src/Wim/Directory/Entries.antt =====
-- The entries of a directory take up as many bytes as the code counts.
use go_winio.Base.{
  ℕ, ◌+◌, ◌-◌, ◌*◌, ◌/◌, ◌%◌, ◌^◌, ◌≤◌, ◌<◌, ◌≡◌, ap, ◌∙◌, arith, true, false, ◌&&◌, List, length,
  take, drop, length-drop, some, ltb, ◌==◌, not, Result, ok, ◌>>=◌, Returns, returns, fails, panics,
  Returns-bind, Returns-if, Returns-fail_if, fail_if, ◌>>◌,
}
use go_winio.Base.Word.{le_value, lt_int64}
use go_winio.Wim.Source.{
  Source, WimError, reading, oper_error, directory_length_check, directory_entry, parse_error,
  missing_reparse_stream, not_eof,
}
use go_winio.Wim.Resource.{FileData}
use go_winio.Wim.Directory.{
  DirEntry, dir_entry, dir_entry_size, dir_entry_bytes, File, find_data, entry_names,
  security_descriptor_of, stream_rounds, read_entry, read_next_entry, is_reparse_point,
  is_real_directory,
}
use go_winio.Wim.Directory.Moves.{
  Moves, Moves-trans, Moves-eq, read_bytes-Read, discard-Moves, read_name-Moves, find_data-Any,
  Onward, EvenStreams, stream_rounds-Moves,
}

not_short : (len k : ℕ) → k < 2 ^ 63 → lt_int64 len k ≡ false → k ≤ len
not_short len k h e = ground arith

not_less : (a b : ℕ) → ltb a b ≡ false → b ≤ a
not_less a b e = ground arith

total_lem : (len n : ℕ) → 102 ≤ len → n ≤ len - 102 → 94 + (n + (len - 102 - n)) ≡ len - 8
total_lem len n h k = omega arith

module _ (decode : List ℕ → List ℕ) (files : FileData) (sds : List (List ℕ)) where
  -- The file names of an entry have whole units.
  abbrev pub EvenNames : DirEntry → Type 0
  EvenNames d = (d.file_name_length + d.short_name_length) % 2 ≡ 0

  abbrev pub entry_at : Source → DirEntry
  entry_at s = dir_entry (take dir_entry_bytes s.bytes)

  abbrev Entry : ℕ → Source → (DirEntry × File) × Source → Type 0
  Entry len s ((d, f), s') = (d ≡ entry_at s) × (dir_entry_size ≤ len) × Moves (len - 8) s s'

  read_entry-Moves :
      (len : ℕ) (s : Source)
      → EvenNames (entry_at s)
      → Returns (Entry len s) (read_entry decode files sds len s)
  unfolding read_entry
  read_entry-Moves len s even = Returns-fail_if (lt_int64 len dir_entry_size) _ λ long.
      let long' : dir_entry_size ≤ len = not_short len dir_entry_size (omega arith) long in
      Returns-bind (read_bytes-Read (oper_error directory_entry) dir_entry_bytes s)
        λ (db, s1) (m1, e1).
          let d = dir_entry db in
          let left = len - dir_entry_size in
          let names_len = (d.file_name_length + 2 + d.short_name_length) % 2 ^ 16 in
          let same : d ≡ entry_at s = ap (λ (b : List ℕ). dir_entry b) e1 in
          let even' : EvenNames d =
            ap (λ (x : DirEntry). (x.file_name_length + x.short_name_length) % 2) same ∙ even in
          let whole : names_len / 2 * 2 ≡ names_len = omega (arith, even') in
          Returns-fail_if (ltb left names_len) _ λ room.
            let room' : names_len ≤ left = not_less left names_len room in
            Returns-bind (read_name-Moves (names_len / 2) s1) λ (us, s2) m2.
              Returns-bind (find_data-Any (entry_names decode files sds d us)) λ (name, short) _.
                Returns-bind (find_data-Any (find_data directory_entry files name d.hash))
                  λ offset _.
                    Returns-fail_if (is_real_directory d.attributes && d.subdir_offset == 0) _ λ _.
                      Returns-fail_if
                        (not (is_real_directory d.attributes) && not (d.subdir_offset == 0)) _
                        λ _.
                          Returns-bind
                            (find_data-Any (security_descriptor_of decode files sds d.security_id))
                            λ sd _.
                              Returns-bind
                                (discard-Moves (λ e. reading (not_eof e)) (left - names_len) s2)
                                λ s3 m3. returns _ (
                                  same,
                                  long',
                                  Moves-eq _ _ s s3 (total_lem len names_len long' room') (
                                      Moves-trans dir_entry_bytes (names_len + (left - names_len)) s
                                        s1 s3 m1
                                        (Moves-trans names_len (left - names_len) s1 s2 s3
                                          (Moves-eq _ _ s1 s2 whole m2) m3)),
                                )

  -- The entry at a reader, if there is one, and its streams have names of whole units.
  unfoldable pub EvenEntry : Source → Type 0
  EvenEntry s =
      let s1 = record s { bytes = drop 8 s.bytes } in
      EvenNames (entry_at s1)
      × Onward (λ ((d, f), s2). EvenStreams decode files d.stream_count s2)
          (read_entry decode files sds (le_value (take 8 s.bytes)) s1)

  Returns-and :
      {A : Type 0} {P Q : A → Type 0} {r : Result WimError A}
      → Returns Q r
      → Onward P r
      → Returns (λ a. Q a × P a) r
  Returns-and (returns a q) p = returns a (q, p)
  Returns-and (fails e) p = fails e
  Returns-and panics p = panics

  -- The structure of an entry and its streams, of the length that was read.
  entry_body :
      (len : ℕ) (s s1 : Source)
      → Moves 8 s s1
      → length s.bytes < 2 ^ 63
      → EvenNames (entry_at s1)
      → Onward
          (λ ((d, f), s2). EvenStreams decode files d.stream_count s2)
          (read_entry decode files sds len s1)
      → Returns
          (λ ((e, n), s'). Moves n s s')
          (do
            ((d, f), s2) ← read_entry decode files sds len s1
            ((f', total), s3) ← stream_rounds decode files d.stream_count true f len s2
            fail_if
                (is_reparse_point d.attributes && f'.size == 0)
                (parse_error directory_entry f.name missing_reparse_stream)
            ok ((some f', total), s3))
  entry_body len s s1 m1 h even later =
      Returns-bind (Returns-and (read_entry-Moves len s1 even) later)
        λ ((d, f), s2) ((same, long, m2), streams).
          let start : length s1.bytes ≡ length s.bytes - 8 =
            ap (λ (x : Source). length x.bytes) m1.1 ∙ length-drop 8 s.bytes in
          let left : length s2.bytes ≡ length s1.bytes - (len - 8) =
            ap (λ (x : Source). length x.bytes) m2.1 ∙ length-drop (len - 8) s1.bytes in
          let fits : len + length s2.bytes < 2 ^ 63 =
            omega (arith, start, left, m1.0, m2.0, long, h) in
          Returns-bind (stream_rounds-Moves decode files d.stream_count true f len s2 fits streams)
            λ ((f', total), s3) (m, e, m3).
              Returns-fail_if (is_reparse_point d.attributes && f'.size == 0) _ λ _. returns _ (
                Moves-eq (8 + (len - 8 + m)) total s s3 (omega (arith, e, long))
                  (Moves-trans 8 (len - 8 + m) s s1 s3 m1 (Moves-trans (len - 8) m s1 s2 s3 m2 m3)))

  pub read_next_entry-Moves :
      (s : Source)
      → length s.bytes < 2 ^ 63
      → EvenEntry s
      → Returns (λ ((e, n), s'). Moves n s s') (read_next_entry decode files sds s)
  unfolding read_next_entry EvenEntry
  read_next_entry-Moves s h (even, later) =
      Returns-bind (read_bytes-Read (oper_error directory_length_check) 8 s) λ (lb, s1) (m1, e1).
        let even' : EvenNames (entry_at s1) = rw (m1.1) even in
        let later' : Onward (λ ((d, f), s2). EvenStreams decode files d.stream_count s2)
            (read_entry decode files sds (le_value lb) s1) =
          rw (e1, m1.1) later in
        Returns-if (le_value lb == 0) (λ _. returns _ m1)
          λ more. entry_body (le_value lb) s s1 m1 h even' later'
