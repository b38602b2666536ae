-- ===== src/Record/Stream/Resync.antt =====
-- `nextValid` of store/datafile.go behind a damaged place.
use gobeansdb.Base.{
  ℕ, zero, suc, ◌+◌, ◌-◌, ◌*◌, ◌/◌, ◌%◌, ◌^◌, ◌<◌, ◌≡◌, ◌∙◌, arith, none, some, List, length,
  lt→ltb,
}
use gobeansdb.Config.{McConfig}
use gobeansdb.Cmem.{BeansdbRl}
use gobeansdb.Record.{WriteRecord, ReadError, ok, err, read_record_at}
use gobeansdb.Record.Stream.{StreamReader, NextResult, next_valid, next_valid_loop, found_at}

module _ (conf : McConfig) (malloc : ℕ → ℕ) where
  -- From an offset so many reads fail, each 256 bytes behind the one before, and the next one
  -- succeeds, all of them within the file.
  pub data FirstGood (file : List ℕ) : ℕ → ℕ → BeansdbRl → WriteRecord → Type 0 where
    here :
        (offset : ℕ) (rl rl' : BeansdbRl) (w : WriteRecord)
        → offset < length file
        → read_record_at conf malloc file offset rl ≡ (ok w, rl')
        → FirstGood file 0 offset rl w
    later :
        (n offset : ℕ) (rl rl' : BeansdbRl) (e : ReadError) (w : WriteRecord)
        → offset < length file
        → read_record_at conf malloc file offset rl ≡ (err e, rl')
        → FirstGood file n (offset + 256) rl' w
        → FirstGood file (suc n) offset rl w

  -- What `nextValid` answers for a record found at an offset, so many bytes on.
  abbrev pub found : WriteRecord → ℕ → ℕ → NextResult
  found w offset broken = record {
    res = some w.rec;
    offset = offset;
    size_broken = broken;
    error = none;
  }

  loop_finds :
      (fuel n offset broken : ℕ) (stream : StreamReader) (rl : BeansdbRl) (w : WriteRecord)
      → FirstGood stream.file n offset rl w
      → n < fuel
      → length stream.file < 2 ^ 32 - 256
      → broken + n * 256 < 2 ^ 32
      → (next_valid_loop conf malloc fuel offset broken stream rl).result
        ≡ found w (offset + n * 256) (broken + n * 256)
  unfolding next_valid_loop found_at
  loop_finds zero n offset broken stream rl w good enough small fits = elim enough [ ]
  loop_finds (suc fuel) _ offset broken stream rl w (here _ _ rl' _ inside read) enough small fits =
      rw (lt→ltb offset (length stream.file) inside, read)
        (let here_is : offset ≡ offset + 0 * 256 = omega arith in
          let all_broken : broken ≡ broken + 0 * 256 = omega arith in
          λ i. found w (here_is i) (all_broken i))
  loop_finds (suc fuel) _ offset broken stream rl w (later n _ _ rl' e _ inside read good) enough
        small fits =
      rw (lt→ltb offset (length stream.file) inside, read)
        (let next : (offset + 256) % 2 ^ 32 ≡ offset + 256 = omega (arith, inside, small) in
          let skipped : (broken + 256) % 2 ^ 32 ≡ broken + 256 = omega (arith, fits) in
          let there : offset + 256 + n * 256 ≡ offset + suc n * 256 = omega arith in
          let all_broken : broken + 256 + n * 256 ≡ broken + suc n * 256 = omega arith in
          (λ i.
            (next_valid_loop conf malloc fuel (next i) (skipped i)
              (record stream { offset = next i }) rl').result)
          ∙ loop_finds fuel n (offset + 256) (broken + 256)
              (record stream { offset = offset + 256 }) rl' w good (omega arith) small
              (omega (arith, fits))
          ∙ λ i. found w (there i) (all_broken i))

  FirstGood-inside :
      (file : List ℕ) (n offset : ℕ) (rl : BeansdbRl) (w : WriteRecord)
      → FirstGood file n offset rl w
      → offset + n * 256 < length file
  FirstGood-inside file _ offset rl w (here _ _ _ _ inside read) = omega (arith, inside)
  FirstGood-inside file _ offset rl w (later n _ _ rl' e _ inside read good) =
      omega (arith, FirstGood-inside file n (offset + 256) rl' w good)

  -- In a file of less than 4 GB by 256 bytes, if from the start of the block of the stream's offset `n`
  -- reads at successive blocks fail and the next one gives a record, `nextValid` gives that record, its
  -- offset, and 256 n as the bytes that are broken.
  pub next_valid-FirstGood :
      (n : ℕ) (stream : StreamReader) (rl : BeansdbRl) (w : WriteRecord)
      → length stream.file < 2 ^ 32 - 256
      → FirstGood stream.file n (stream.offset / 256 * 256) rl w
      → (next_valid conf malloc stream rl).result
        ≡ found w (stream.offset / 256 * 256 + n * 256) (n * 256)
  unfolding next_valid
  next_valid-FirstGood n stream rl w small good =
      let inside = FirstGood-inside stream.file n (stream.offset / 256 * 256) rl w good in
      let nothing : 0 + n * 256 ≡ n * 256 = omega arith in
      loop_finds (length stream.file / 256 + 1) n (stream.offset / 256 * 256) 0 stream rl w good
        (omega (arith, inside)) small (omega (arith, inside, small))
      ∙ λ i. found w (stream.offset / 256 * 256 + n * 256) (nothing i)
