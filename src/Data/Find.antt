-- ===== src/Data/Find.antt =====
-- The search of store/datachunk.go for a record in the buffer.
use gobeansdb.Base.{
  ℕ, zero, suc, ◌+◌, ◌<◌, ◌≤◌, ◌≡◌, refl, sym, ap, ◌∙◌, arith, true, false, inl, inr, Bool-cases,
  List, [], ◌∷◌, ◌++◌, length, get_or, All, ltb, leb, ◌==◌, le→leb, lt→leb_false, le→ltb_false,
  lt→ltb, ==_iff, length-append,
}
use gobeansdb.Record.{Rec, WriteRecord, sizes}
use gobeansdb.Record.Header.{IsStorable}
use gobeansdb.Data.{DataChunk, absent, found, find_among, find_in_buffer, offset_at, no_record}
use gobeansdb.Data.Search.{search, search_finds}
use Prim.{tt}
use gobeansdb.Data.Chunk.{Represents, place, placed, total, total-append, length-place, size_pos}

-- No offset in the buffer is below its first.
place_above :
    (c at i : ℕ) (xs : List Rec) → i < length (place c at xs) → at ≤ offset_at (place c at xs) i
place_above c at i [] h = omega (arith, h)
place_above c at zero (x ∷ xs) h = omega arith
place_above c at (suc i) (x ∷ xs) h =
    let up = place_above c (at + (sizes x).1) i xs (omega (arith, h)) in omega (arith, up)

-- Whether an index of the buffer is at or behind the one that is looked for.
place_cut :
    (c at i : ℕ) (before after : List Rec)
    → All IsStorable before
    → i < length (place c at (before ++ after))
    → leb (at + total before) (offset_at (place c at (before ++ after)) i) ≡ leb (length before) i
place_cut c at i [] after h lt =
    let up = place_above c at i after lt in
    le→leb (at + 0) (offset_at (place c at after) i) (omega (arith, up))
    ∙ sym (le→leb 0 i (omega arith))
place_cut c at zero (b ∷ bs) after h lt =
    let p = size_pos b h.0 in
    lt→leb_false (at + total (b ∷ bs)) at (omega (arith, p))
    ∙ sym (lt→leb_false (suc (length bs)) 0 (omega arith))
place_cut c at (suc i) (b ∷ bs) after h lt =
    let rest = place_cut c (at + (sizes b).1) i bs after h.1 (omega (arith, lt)) in
    ap (λ n. leb n (offset_at (place c (at + (sizes b).1) (bs ++ after)) i))
      (assoc at (sizes b).1 (total bs))
    ∙ rest
    ∙ leb_suc (length bs) i
  where
    assoc : (a b c : ℕ) → a + (b + c) ≡ a + b + c
    assoc a b c = omega arith

    leb_suc : (a b : ℕ) → leb a b ≡ leb (suc a) (suc b)
    leb_suc a b = ground arith

get_or-place :
    (c at : ℕ) (before after : List Rec) (r : Rec)
    → get_or (place c at (before ++ (r ∷ after))) (length before) no_record
      ≡ placed c (at + total before) r
get_or-place c at [] after r = ap (λ n. placed c n r) (at_zero at)
  where
    at_zero : (n : ℕ) → n ≡ n + 0
    at_zero n = omega arith
get_or-place c at (b ∷ bs) after r =
    get_or-place c (at + (sizes b).1) bs after r
    ∙ ap (λ n. placed c n r) (assoc at (sizes b).1 (total bs))
  where
    assoc : (a b c : ℕ) → a + b + c ≡ a + (b + c)
    assoc a b c = omega arith

-- The steps of the search, once each test is known.
found_step :
    (wbuf : List WriteRecord) (head offset k : ℕ)
    → length wbuf == 0 ≡ false
    → ltb offset (offset_at wbuf 0) ≡ false
    → leb head offset ≡ false
    → search (length wbuf) (λ i. leb offset (offset_at wbuf i)) ≡ k
    → leb (length wbuf) k ≡ false
    → offset_at wbuf k == offset ≡ true
    → find_among wbuf head offset ≡ found (get_or wbuf k no_record)
unfolding find_among
found_step wbuf head offset k some_there low high idx inside same =
    rw (some_there, low, high, idx, inside, same) refl

absent_low :
    (wbuf : List WriteRecord) (head offset : ℕ)
    → ltb offset (offset_at wbuf 0) ≡ true
    → find_among wbuf head offset ≡ absent
unfolding find_among
absent_low wbuf head offset low = elim (Bool-cases (length wbuf == 0)) [
  | inl e ↦ rw e refl
  | inr e ↦ rw (e, low) refl
]

absent_empty : (head offset : ℕ) → find_among [] head offset ≡ absent
unfolding find_among
absent_empty head offset = refl

first_at :
    (c at : ℕ) (before after : List Rec) (r : Rec)
    → offset_at (place c at (before ++ (r ∷ after))) 0 ≡ at
first_at c at [] after r = refl
first_at c at (b ∷ bs) after r = refl

pub All-split :
    (xs ys : List Rec) → All IsStorable (xs ++ ys) → All IsStorable xs × All IsStorable ys
All-split [] ys h = (tt, h)
All-split (x ∷ xs) ys h = let (front, back) = All-split xs ys h.1 in ((h.0, front), back)

module _ (dc : DataChunk) (flushed : List Rec) where
  -- Where a chunk holds the records of `flushed` on disk and, in its buffer, those of `before`, then `r`,
  -- then those of `after`, the search for the offset at which `r` begins finds `r`.
  pub find_in_buffer-pending :
      (before after : List Rec) (r : Rec)
      → Represents dc flushed (before ++ (r ∷ after))
      → find_in_buffer dc (total flushed + total before)
        ≡ found (placed dc.chunkid (total flushed + total before) r)
  find_in_buffer-pending before after r h =
      let off = total flushed + total before in
      let buf = place dc.chunkid (total flushed) (before ++ (r ∷ after)) in
      let size =
        length-place dc.chunkid (total flushed) (before ++ (r ∷ after))
        ∙ length-append before (r ∷ after) in
      let at = get_or-place dc.chunkid (total flushed) before after r in
      let first = first_at dc.chunkid (total flushed) before after r in
      let (front, back) = All-split before (r ∷ after) h.waiting in
      let pos = size_pos r back.0 in
      let sum = total-append before (r ∷ after) in
      let idx =
        search_finds (λ i. leb off (offset_at buf i)) (length before) (length buf)
          (λ i lt. place_cut dc.chunkid (total flushed) i before (r ∷ after) front lt)
          (omega (arith, size)) in
      (λ i. find_among (h.in_wbuf i) (h.head i) off)
      ∙ found_step buf (total flushed + total (before ++ (r ∷ after))) off (length before)
          (ground (arith, size)) (le→ltb_false off (offset_at buf 0) (omega (arith, first)))
          (lt→leb_false (total flushed + total (before ++ (r ∷ after))) off
            (omega (arith, sum, pos)))
          idx (lt→leb_false (length buf) (length before) (omega (arith, size)))
          ((==_iff (offset_at buf (length before)) off).1 (ap (λ w. w.at.offset) at))
      ∙ ap found at

  -- Under the same conditions, an offset below that of the first record in the buffer is not in it.
  pub find_in_buffer-flushed :
      (pending : List Rec) (offset : ℕ)
      → Represents dc flushed pending
      → offset < total flushed
      → find_in_buffer dc offset ≡ absent
  find_in_buffer-flushed [] offset h lt =
      (λ i. find_among (h.in_wbuf i) dc.writing_head offset) ∙ absent_empty dc.writing_head offset
  find_in_buffer-flushed (p ∷ ps) offset h lt =
      (λ i. find_among (h.in_wbuf i) dc.writing_head offset)
      ∙ absent_low (place dc.chunkid (total flushed) (p ∷ ps)) dc.writing_head offset
          (lt→ltb offset (total flushed) lt)
