-- ===== src/Sbull/Bios.antt =====
-- process_bio and process_request side by side.
use ldd3_kernel.Prelude.{
  ℕ, zero, suc, ◌+◌, ◌*◌, ◌%◌, ◌^◌, ◌≤◌, ◌<◌, ◌≡◌, refl, ap, sym, ◌∙◌, Bool, true, false, List, [],
  ◌∷◌, ◌++◌, arith, length, take, drop, overwrite, length-append, length-overwrite, length-take,
  length-drop,
}
use mathlib.Core.List.{append_assoc}
use ldd3_kernel.Int.{pos, ◌-ℤ◌, is_neg, sub_ℕ, to_long, to_long-pos, long_min_abs}
use ldd3_kernel.Kernel.{Run, done, fault, ◌>>=◌}
use ldd3_kernel.Sbull.{SbullDev, sector_size}
use ldd3_kernel.Sbull.Transfer.{
  Segment, copy_segment, to_bytes, is_past_end, request_loop, process_request, bio_loop,
  process_bio, ended, queue_rq, sbull_submit_bio,
}
use ldd3_kernel.Sbull.Requests.{
  concat, IsDisk, SameLengths, size_lem, with_bytes, request_step, copy_in_lem, copy_out_lem,
  with_bytes-IsDisk, write_lem, read_lem,
}

-- The bytes cut into segments of the lengths of the given ones
abbrev pub pieces : List Segment → List ℕ → List Segment
pieces [] bytes = []
pieces (buf ∷ rest) bytes = take (length buf) bytes ∷ pieces rest (drop (length buf) bytes)

-- The disk, the segments and the status after a transfer from the offset `at` on
abbrev pub moved : Bool → SbullDev → List Segment → ℕ → SbullDev × List Segment × Bool
moved true dev segments at =
    (with_bytes dev (overwrite dev.bytes at (concat segments)), segments, true)
moved false dev segments at = (dev, pieces segments (drop at dev.bytes), true)

pieces-SameLengths :
    (segments : List Segment) (bytes : List ℕ)
    → length (concat segments) ≤ length bytes
    → SameLengths (pieces segments bytes) segments
pieces-SameLengths [] bytes h = tt
pieces-SameLengths (buf ∷ rest) bytes h = (
  omega (arith, length-take (length buf) bytes, length-append buf (concat rest), h),
  pieces-SameLengths rest (drop (length buf) bytes)
      (omega (arith, length-drop (length buf) bytes, length-append buf (concat rest), h)),
)

take_and_drop : (n : ℕ) (xs : List ℕ) → take n xs ++ drop n xs ≡ xs
take_and_drop zero xs = refl
take_and_drop (suc n) [] = refl
take_and_drop (suc n) (x ∷ xs) = ap (λ t. x ∷ t) (take_and_drop n xs)

-- What is left behind the pieces
rest_of : List Segment → List ℕ → List ℕ
rest_of [] bytes = bytes
rest_of (buf ∷ rest) bytes = rest_of rest (drop (length buf) bytes)

concat-pieces :
    (segments : List Segment) (bytes : List ℕ)
    → bytes ≡ concat (pieces segments bytes) ++ rest_of segments bytes
unfolding rest_of
concat-pieces [] bytes = refl
concat-pieces (buf ∷ rest) bytes =
    let n = length buf in
    sym (take_and_drop n bytes)
    ∙ ap (λ t. take n bytes ++ t) (concat-pieces rest (drop n bytes))
    ∙ sym (
        append_assoc (take n bytes) (concat (pieces rest (drop n bytes)))
          (rest_of rest (drop n bytes)))

length-pieces :
    (segments : List Segment) (bytes : List ℕ)
    → length (concat segments) ≤ length bytes
    → length (concat (pieces segments bytes)) ≡ length (concat segments)
length-pieces [] bytes h = refl
length-pieces (buf ∷ rest) bytes h = omega (
  arith,
  h,
  length-append buf (concat rest),
  length-append (take (length buf) bytes) (concat (pieces rest (drop (length buf) bytes))),
  length-take (length buf) bytes,
  length-drop (length buf) bytes,
  length-pieces rest (drop (length buf) bytes)
      (omega (arith, length-drop (length buf) bytes, length-append buf (concat rest), h)),
)

-- A request in the range of the disk moves all of it and ends well.
request_lem :
    (write : Bool) (dev : SbullDev) (segments : List Segment) (at : ℕ)
    → IsDisk dev
    → at + length (concat segments) ≤ length dev.bytes
    → (request_loop write dev segments at 0 >>= ended) ≡ done (moved write dev segments at)
request_lem true dev segments at v h =
    ap (λ run. run >>= ended) (write_lem dev segments at 0 v h (omega arith))
request_lem false dev segments at v h =
    let here = drop at dev.bytes in
    let inside : length (concat segments) ≤ length here =
      omega (arith, h, length-drop at dev.bytes) in
    ap (λ run. run >>= ended)
      (read_lem dev (pieces segments here) segments at 0 (rest_of segments here) v
        (pieces-SameLengths segments here inside)
        (omega (arith, h, length-pieces segments here inside)) (concat-pieces segments here)
        (omega arith))

in_range :
    (dev : SbullDev) (at len : ℕ)
    → IsDisk dev
    → at + len ≤ length dev.bytes
    → is_past_end (pos at) len (to_long (pos (to_bytes dev.capacity))) ≡ false
in_range dev at len v h =
    let small : length dev.bytes < long_min_abs = omega (arith, v.has_bytes, v.fits) in
    ap (λ n. is_past_end (pos at) len (to_long (pos n))) (size_lem dev v)
    ∙ ap (λ z. is_past_end (pos at) len z) (to_long-pos (length dev.bytes) small)
    ∙ ap (λ z. is_neg (pos (length dev.bytes) -ℤ z))
        (to_long-pos (at + len) (omega (arith, h, small)))
    ∙ not_past (length dev.bytes) (at + len) h
  where
    not_past : (a b : ℕ) → b ≤ a → is_neg (sub_ℕ a b) ≡ false
    not_past a b h = ground arith

bio_step :
    (write : Bool) (dev : SbullDev) (buf : Segment) (rest : List Segment) (at : ℕ)
    → IsDisk dev
    → at + length buf ≤ length dev.bytes
    → bio_loop write dev (buf ∷ rest) (pos at) ≡ (
        copy_segment write dev buf at (length buf) >>= λ one.
        bio_loop write one.0 rest (pos (at + length buf)) >>= λ out.
        done (out.0, one.1 ∷ out.1, out.2))
unfolding bio_loop
bio_step write dev buf rest at v h = simp (in_range dev at (length buf) v h) (
    ap
      (λ z. copy_segment write dev buf at (length buf) >>= λ one.
        bio_loop write one.0 rest z >>= λ out. done (out.0, one.1 ∷ out.1, out.2))
      (to_long-pos (at + length buf) (omega (arith, h, v.has_bytes, v.fits))))

ended-after :
    (buf : Segment) (run : Run (SbullDev × List Segment × ℕ))
    → (run >>= ended >>= λ out. done (out.0, buf ∷ out.1, out.2))
      ≡ (run >>= (λ out. done (out.0, buf ∷ out.1, out.2)) >>= ended)
ended-after buf (done out) = refl
ended-after buf (fault e) = refl

-- What a copy of a segment leaves
copied :
    (write : Bool) (dev : SbullDev) (buf : Segment) (at : ℕ)
    → IsDisk dev
    → at + length buf ≤ length dev.bytes
    → (one : SbullDev × Segment) × (copy_segment write dev buf at (length buf) ≡ done one)
      × IsDisk one.0
      × (length one.0.bytes ≡ length dev.bytes)
copied true dev buf at v h =
    let same_size : length (overwrite dev.bytes at buf) ≡ length dev.bytes =
      length-overwrite dev.bytes at buf h in
    (
      (with_bytes dev (overwrite dev.bytes at buf), buf),
      copy_in_lem dev buf at h,
      with_bytes-IsDisk dev (overwrite dev.bytes at buf) v same_size,
      same_size,
    )
copied false dev buf at v h = (
  (dev, overwrite buf 0 (take (length buf) (drop at dev.bytes))),
  copy_out_lem dev buf at h,
  v,
  refl,
)

bio_lem :
    (write : Bool) (dev : SbullDev) (segments : List Segment) (at nr_bytes : ℕ)
    → IsDisk dev
    → at + length (concat segments) ≤ length dev.bytes
    → bio_loop write dev segments (pos at) ≡ (request_loop write dev segments at nr_bytes >>= ended)
unfolding bio_loop request_loop
bio_lem write dev [] at nr v h = refl
bio_lem write dev (buf ∷ rest) at nr v h =
    let inside : at + length buf ≤ length dev.bytes =
      omega (arith, h, length-append buf (concat rest)) in
    let (one, copies, v', same_size) = copied write dev buf at v inside in
    let nr' = (nr + length buf) % 2 ^ 32 in
    bio_step write dev buf rest at v inside
    ∙ ap
        (λ run. run >>= λ one. bio_loop write one.0 rest (pos (at + length buf)) >>= λ out.
          done (out.0, one.1 ∷ out.1, out.2))
        copies
    ∙ ap (λ run. run >>= λ out. done (out.0, one.1 ∷ out.1, out.2))
        (bio_lem write one.0 rest (at + length buf) nr' v'
          (omega (arith, h, length-append buf (concat rest), same_size)))
    ∙ ended-after one.1 (request_loop write one.0 rest (at + length buf) nr')
    ∙ sym (
        ap (λ run. run >>= ended)
          (request_step write dev buf rest at nr v inside
            ∙ ap
                (λ run. run >>= λ one.
                  request_loop write one.0 rest (at + length buf) nr' >>= λ out.
                  done (out.0, one.1 ∷ out.1, out.2))
                copies))

-- In the range of the disk, the driver in bio mode and in request mode both end well, with the same
-- outcome: a write puts the bytes of the segments on the disk, one behind the other from the sector
-- on, and changes no other; a read changes nothing on the disk and fills the segments, one behind
-- the other, with the bytes from the sector on.
pub bio-request :
    (write : Bool) (dev : SbullDev) (segments : List Segment) (sector : ℕ)
    → IsDisk dev
    → sector * sector_size + length (concat segments) ≤ length dev.bytes
    → let out = moved write dev segments (sector * sector_size) in
      (sbull_submit_bio write dev segments sector ≡ done out)
      × (queue_rq write dev segments sector ≡ done out)
unfolding process_bio process_request queue_rq
bio-request write dev segments sector v h =
    let at = sector * sector_size in
    let place : to_bytes sector ≡ at = omega (arith, h, v.has_bytes, v.fits) in
    let ends : (request_loop write dev segments at 0 >>= ended)
        ≡ done (moved write dev segments at) =
      request_lem write dev segments at v h in
    let signed_place : to_long (pos at) ≡ pos at =
      to_long-pos at (omega (arith, h, v.has_bytes, v.fits)) in
    (
      ap (λ n. bio_loop write dev segments (to_long (pos n))) place
          ∙ ap (λ z. bio_loop write dev segments z) signed_place
          ∙ bio_lem write dev segments at 0 v h
          ∙ ends,
      ap (λ n. request_loop write dev segments n 0 >>= ended) place ∙ ends,
    )
