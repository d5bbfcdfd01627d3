-- ===== src/Sbull/Requests.antt =====
-- What requests move.
use ldd3_kernel.Prelude.{
  ℕ, ◌+◌, ◌*◌, ◌%◌, ◌^◌, ◌≤◌, ◌<◌, ◌≡◌, refl, ap, sym, ◌∙◌, Bool, true, false, List, [], ◌∷◌, ◌++◌,
  arith, length, take, drop, overwrite, length-append, length-overwrite, overwrite-nil,
  overwrite-append, drop-drop, take-all, take-append, drop-append, drop-overwrite, overwrite-all,
  le→leb,
}
use mathlib.Core.List.{append_assoc}
use ldd3_kernel.Int.{long_min_abs}
use ldd3_kernel.Kernel.{done, ◌>>=◌}
use ldd3_kernel.Sbull.{SbullDev, sector_size}
use ldd3_kernel.Sbull.Transfer.{
  Segment, copy_segment, to_bytes, is_past, cut, request_loop, process_request,
}

-- All bytes of the segments
abbrev pub concat : List Segment → List ℕ
concat [] = []
concat (buf ∷ rest) = buf ++ concat rest

-- The disk has as many bytes as its sectors, and a file offset holds their number.
pub record IsDisk (dev : SbullDev) : Type 0 where
  pub has_bytes : length dev.bytes ≡ dev.capacity * sector_size
  pub fits : dev.capacity * sector_size < long_min_abs

-- Two lists of segments with the same lengths
abbrev pub SameLengths : List Segment → List Segment → Type 0
SameLengths [] [] = Unit
SameLengths (x ∷ xs) (y ∷ ys) = (length y ≡ length x) × SameLengths xs ys
SameLengths [] (y ∷ ys) = ⊥
SameLengths (x ∷ xs) [] = ⊥

pub size_lem : (dev : SbullDev) → IsDisk dev → to_bytes dev.capacity ≡ length dev.bytes
size_lem dev v = omega (arith, v.has_bytes, v.fits)

in_range :
    (dev : SbullDev) (at len : ℕ)
    → IsDisk dev
    → at + len ≤ length dev.bytes
    → is_past at len (to_bytes dev.capacity) ≡ false
in_range dev at len v h = ground (arith, size_lem dev v, v.has_bytes, v.fits)

cut_lem :
    (dev : SbullDev) (at len : ℕ)
    → IsDisk dev
    → at + len ≤ length dev.bytes
    → cut at len (to_bytes dev.capacity) ≡ len
cut_lem dev at len v h = simp (in_range dev at len v h) refl

abbrev pub with_bytes : SbullDev → List ℕ → SbullDev
with_bytes dev bytes = record dev { bytes = bytes }

pub with_bytes-IsDisk :
    (dev : SbullDev) (bytes : List ℕ)
    → IsDisk dev
    → length bytes ≡ length dev.bytes
    → IsDisk (with_bytes dev bytes)
with_bytes-IsDisk dev bytes v h = record { has_bytes = h ∙ v.has_bytes; fits = v.fits }

-- A round of the loop in the range of the disk
pub request_step :
    (write : Bool) (dev : SbullDev) (buf : Segment) (rest : List Segment) (at nr_bytes : ℕ)
    → IsDisk dev
    → at + length buf ≤ length dev.bytes
    → request_loop write dev (buf ∷ rest) at nr_bytes ≡ (
        copy_segment write dev buf at (length buf) >>= λ one.
        request_loop write one.0 rest (at + length buf) ((nr_bytes + length buf) % 2 ^ 32)
        >>= λ out. done (out.0, one.1 ∷ out.1, out.2))
unfolding request_loop
request_step write dev buf rest at nr v h =
    simp (cut_lem dev at (length buf) v h, le→leb (length buf) (length buf) (omega arith)) refl

pub copy_in_lem :
    (dev : SbullDev) (buf : Segment) (at : ℕ)
    → at + length buf ≤ length dev.bytes
    → copy_segment true dev buf at (length buf)
      ≡ done (with_bytes dev (overwrite dev.bytes at buf), buf)
copy_in_lem dev buf at h = simp (le→leb (at + length buf) (length dev.bytes) h) (
    ap (λ b. done (with_bytes dev (overwrite dev.bytes at b), buf))
      (take-all (length buf) buf (omega arith)))

pub copy_out_lem :
    (dev : SbullDev) (buf : Segment) (at : ℕ)
    → at + length buf ≤ length dev.bytes
    → copy_segment false dev buf at (length buf)
      ≡ done (dev, overwrite buf 0 (take (length buf) (drop at dev.bytes)))
copy_out_lem dev buf at h = simp (le→leb (at + length buf) (length dev.bytes) h) refl

-- A write puts the bytes of the segments on the disk, one behind the other.
pub write_lem :
    (dev : SbullDev) (segments : List Segment) (at nr_bytes : ℕ)
    → IsDisk dev
    → at + length (concat segments) ≤ length dev.bytes
    → nr_bytes < 2 ^ 32
    → request_loop true dev segments at nr_bytes
      ≡ done (
        with_bytes dev (overwrite dev.bytes at (concat segments)),
        segments,
        (nr_bytes + length (concat segments)) % 2 ^ 32,
      )
unfolding request_loop
write_lem dev [] at nr v h small =
    let same : (nr + 0) % 2 ^ 32 ≡ nr = omega (arith, small) in
    rw (same, overwrite-nil dev.bytes at) refl
write_lem dev (buf ∷ rest) at nr v h small =
    let inside : at + length buf ≤ length dev.bytes =
      omega (arith, h, length-append buf (concat rest)) in
    let same_size : length (overwrite dev.bytes at buf) ≡ length dev.bytes =
      length-overwrite dev.bytes at buf inside in
    let dev' : SbullDev = with_bytes dev (overwrite dev.bytes at buf) in
    let total : ((nr + length buf) % 2 ^ 32 + length (concat rest)) % 2 ^ 32
        ≡ (nr + length (buf ++ concat rest)) % 2 ^ 32 =
      omega (arith, length-append buf (concat rest)) in
    request_step true dev buf rest at nr v inside
    ∙ ap
        (λ run. run >>= λ one.
          request_loop true one.0 rest (at + length buf) ((nr + length buf) % 2 ^ 32) >>= λ out.
          done (out.0, one.1 ∷ out.1, out.2))
        (copy_in_lem dev buf at inside)
    ∙ ap (λ run. run >>= λ out. done (out.0, buf ∷ out.1, out.2))
        (write_lem dev' rest (at + length buf) ((nr + length buf) % 2 ^ 32)
          (with_bytes-IsDisk dev (overwrite dev.bytes at buf) v same_size)
          (omega (arith, h, length-append buf (concat rest), same_size)) (omega arith))
    ∙ ap
        (λ n. done (
          with_bytes dev (overwrite (overwrite dev.bytes at buf) (at + length buf) (concat rest)),
          buf ∷ rest,
          n,
        ))
        total
    ∙ ap (λ b. done (with_bytes dev b, buf ∷ rest, (nr + length (buf ++ concat rest)) % 2 ^ 32))
        (overwrite-append dev.bytes at buf (concat rest) inside)

-- Where the bytes of some segments stand on the disk, a read into segments of the same lengths gives
-- these.
pub read_lem :
    (dev : SbullDev) (segments blanks : List Segment) (at nr_bytes : ℕ) (tail : List ℕ)
    → IsDisk dev
    → SameLengths segments blanks
    → at + length (concat segments) ≤ length dev.bytes
    → drop at dev.bytes ≡ concat segments ++ tail
    → nr_bytes < 2 ^ 32
    → request_loop false dev blanks at nr_bytes
      ≡ done (dev, segments, (nr_bytes + length (concat segments)) % 2 ^ 32)
unfolding request_loop
read_lem dev [] [] at nr tail v same h there small =
    let whole : (nr + 0) % 2 ^ 32 ≡ nr = omega (arith, small) in rw whole refl
read_lem dev [] (b ∷ bs) at nr tail v same h there small = absurd same
read_lem dev (buf ∷ rest) [] at nr tail v same h there small = absurd same
read_lem dev (buf ∷ rest) (b ∷ bs) at nr tail v same h there small =
    let length_is : length b ≡ length buf = same.0 in
    let inside : at + length b ≤ length dev.bytes =
      omega (arith, h, length-append buf (concat rest), length_is) in
    let from_here : drop at dev.bytes ≡ buf ++ (concat rest ++ tail) =
      there ∙ append_assoc buf (concat rest) tail in
    let behind : drop (at + length b) dev.bytes ≡ concat rest ++ tail =
      sym (drop-drop (length b) at dev.bytes)
      ∙ ap (drop (length b)) from_here
      ∙ ap (λ n. drop n (buf ++ (concat rest ++ tail))) length_is
      ∙ drop-append buf (concat rest ++ tail) in
    let given : overwrite b 0 (take (length b) (drop at dev.bytes)) ≡ buf =
      ap (λ t. overwrite b 0 (take (length b) t)) from_here
      ∙ ap (λ n. overwrite b 0 (take n (buf ++ (concat rest ++ tail)))) length_is
      ∙ ap (overwrite b 0) (take-append buf (concat rest ++ tail))
      ∙ overwrite-all b buf length_is in
    let total : ((nr + length b) % 2 ^ 32 + length (concat rest)) % 2 ^ 32
        ≡ (nr + length (buf ++ concat rest)) % 2 ^ 32 =
      omega (arith, length-append buf (concat rest), length_is) in
    request_step false dev b bs at nr v inside
    ∙ ap
        (λ run. run >>= λ one.
          request_loop false one.0 bs (at + length b) ((nr + length b) % 2 ^ 32) >>= λ out.
          done (out.0, one.1 ∷ out.1, out.2))
        (copy_out_lem dev b at inside)
    ∙ ap
        (λ run. run >>= λ out.
          done (out.0, overwrite b 0 (take (length b) (drop at dev.bytes)) ∷ out.1, out.2))
        (read_lem dev rest bs (at + length b) ((nr + length b) % 2 ^ 32) tail v same.1
          (omega (arith, h, length-append buf (concat rest), length_is)) behind (omega arith))
    ∙ ap (λ t. done (dev, t ∷ rest, ((nr + length b) % 2 ^ 32 + length (concat rest)) % 2 ^ 32))
        given
    ∙ ap (λ n. done (dev, buf ∷ rest, n)) total

-- A write of segments that lie in the range of the disk moves all of their bytes, and a later read of
-- the same range into segments of the same lengths gives them back.
pub request-round_trip :
    (dev : SbullDev) (segments blanks : List Segment) (sector : ℕ)
    → IsDisk dev
    → SameLengths segments blanks
    → sector * sector_size + length (concat segments) ≤ length dev.bytes
    → length (concat segments) < 2 ^ 32
    → (dev' : SbullDev) × (process_request true dev segments sector
        ≡ done (dev', segments, length (concat segments)))
      × (process_request false dev' blanks sector ≡ done (dev', segments, length (concat segments)))
unfolding process_request
request-round_trip dev segments blanks sector v same h small =
    let at = sector * sector_size in
    let place : to_bytes sector ≡ at = omega (arith, h, v.has_bytes, v.fits) in
    let n = length (concat segments) in
    let bytes = overwrite dev.bytes at (concat segments) in
    let same_size : length bytes ≡ length dev.bytes =
      length-overwrite dev.bytes at (concat segments) h in
    let count : (0 + n) % 2 ^ 32 ≡ n = omega (arith, small) in
    (
      with_bytes dev bytes,
      ap (λ a. request_loop true dev segments a 0) place
          ∙ write_lem dev segments at 0 v h (omega arith)
          ∙ ap (λ m. done (with_bytes dev bytes, segments, m)) count,
      ap (λ a. request_loop false (with_bytes dev bytes) blanks a 0) place
          ∙ read_lem (with_bytes dev bytes) segments blanks at 0 (drop (at + n) dev.bytes)
              (with_bytes-IsDisk dev bytes v same_size) same (omega (arith, h, same_size))
              (drop-overwrite dev.bytes at (concat segments) (omega (arith, h))) (omega arith)
          ∙ ap (λ m. done (with_bytes dev bytes, segments, m)) count,
    )
