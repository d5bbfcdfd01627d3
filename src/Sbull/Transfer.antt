-- ===== src/Sbull/Transfer.antt =====
-- process_request, _queue_rq, process_bio and _sbull_submit_bio.
use ldd3_kernel.Prelude.{
  ℕ, ◌+◌, ◌*◌, ◌%◌, ◌^◌, Bool, true, false, List, [], ◌∷◌, ltb, leb, if◌then◌else◌, length, take,
  drop, overwrite,
}
use ldd3_kernel.Int.{ℤ, pos, negsuc, ◌+ℤ◌, ◌-ℤ◌, is_neg, to_long, to_size, size_mod}
use ldd3_kernel.Kernel.{Run, done, fault, bad_access, ◌>>=◌}
use ldd3_kernel.Sbull.{SbullDev, sector_size}

-- The bytes of one segment of a request, `len` of them at `buf`
abbrev pub Segment : Type 0
Segment = List ℕ

-- `memcpy(dev->data + pos, buf, len)`, or the other way round for a read: the disk and the segment
-- afterwards
abbrev pub copy_segment : Bool → SbullDev → Segment → ℕ → ℕ → Run (SbullDev × Segment)
copy_segment true dev buf at len =
    if leb (at + len) (length dev.bytes)
    then done (record dev { bytes = overwrite dev.bytes at (take len buf) }, buf)
    else fault bad_access
copy_segment false dev buf at len =
    if leb (at + len) (length dev.bytes)
    then done (dev, overwrite buf 0 (take len (drop at dev.bytes)))
    else fault bad_access

-- `<< SECTOR_SHIFT`, of a sector_t
abbrev pub to_bytes : ℕ → ℕ
to_bytes sectors = sectors * sector_size % size_mod

-- `(pos + len) > dev_size` of process_request, where `len` is an unsigned long
abbrev pub is_past : ℕ → ℕ → ℕ → Bool
is_past at len dev_size = ltb dev_size ((at + len) % size_mod)

-- `if ((pos + len) > dev_size) len = (unsigned long)(dev_size - pos);`
abbrev pub cut : ℕ → ℕ → ℕ → ℕ
cut at len dev_size = if is_past at len dev_size then to_size (pos dev_size -ℤ pos at) else len

-- The loop of process_request from `pos` on: the disk, the segments, and `*nr_bytes`. A copy that
-- does not fit its segment faults.
unfoldable pub request_loop :
    Bool → SbullDev → List Segment → ℕ → ℕ → Run (SbullDev × List Segment × ℕ)
request_loop write dev [] at nr_bytes = done (dev, [], nr_bytes)
request_loop write dev (buf ∷ rest) at nr_bytes =
    let len = cut at (length buf) (to_bytes dev.capacity) in
    if leb len (length buf)
    then (copy_segment write dev buf at len >>= λ one.
        request_loop write one.0 rest (at + len) ((nr_bytes + len) % 2 ^ 32) >>= λ out.
        done (out.0, one.1 ∷ out.1, out.2))
    else fault bad_access

unfoldable pub process_request :
    Bool → SbullDev → List Segment → ℕ → Run (SbullDev × List Segment × ℕ)
process_request write dev segments sector = request_loop write dev segments (to_bytes sector) 0

-- `blk_mq_end_request(rq, status)`: the status is BLK_STS_OK, as process_request returns 0.
abbrev pub ended : SbullDev × List Segment × ℕ → Run (SbullDev × List Segment × Bool)
ended out = done (out.0, out.1, true)

-- _queue_rq
unfoldable pub queue_rq : Bool → SbullDev → List Segment → ℕ → Run (SbullDev × List Segment × Bool)
unfolding process_request
queue_rq write dev segments sector = process_request write dev segments sector >>= ended

-- `(pos + len) > dev_size` of process_bio, where `pos` and `dev_size` are of type loff_t
abbrev pub is_past_end : ℤ → ℕ → ℤ → Bool
is_past_end at len dev_size = is_neg (dev_size -ℤ to_long (at +ℤ pos len))

-- The copy at a loff_t; none of the disk lies at a negative one.
abbrev pub copy_at : Bool → SbullDev → Segment → ℤ → ℕ → Run (SbullDev × Segment)
copy_at write dev buf (pos at) len = copy_segment write dev buf at len
copy_at write dev buf (negsuc at) len = fault bad_access

-- The loop of process_bio: the disk, the segments, and whether the status is BLK_STS_OK
unfoldable pub bio_loop : Bool → SbullDev → List Segment → ℤ → Run (SbullDev × List Segment × Bool)
bio_loop write dev [] at = done (dev, [], true)
bio_loop write dev (buf ∷ rest) at =
    if is_past_end at (length buf) (to_long (pos (to_bytes dev.capacity)))
    then done (dev, buf ∷ rest, false)
    else (copy_at write dev buf at (length buf) >>= λ one.
        bio_loop write one.0 rest (to_long (at +ℤ pos (length buf))) >>= λ out.
        done (out.0, one.1 ∷ out.1, out.2))

unfoldable pub process_bio :
    Bool → SbullDev → List Segment → ℕ → Run (SbullDev × List Segment × Bool)
process_bio write dev segments sector =
    bio_loop write dev segments (to_long (pos (to_bytes sector)))

abbrev pub sbull_submit_bio :
    Bool → SbullDev → List Segment → ℕ → Run (SbullDev × List Segment × Bool)
sbull_submit_bio write dev segments sector = process_bio write dev segments sector
