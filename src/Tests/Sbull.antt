-- ===== src/Tests/Sbull.antt =====
-- A disk of two sectors.
use ldd3_kernel.Prelude.{
  ◌^◌, ℕ, ◌≡◌, refl, true, false, List, [], ◌∷◌, ◌++◌, arith, replicate, length-replicate,
}
use ldd3_kernel.Int.{to_long, pos, to_size}
use ldd3_kernel.Kernel.{Reply, ok, err, enomem, done, fault, bad_access}
use ldd3_kernel.Sbull.{SbullDev, geometry}
use ldd3_kernel.Sbull.Transfer.{
  queue_rq, sbull_submit_bio, Segment, process_request, process_bio, request_loop, bio_loop,
}
use ldd3_kernel.Sbull.Requests.{IsDisk, request-round_trip}
use ldd3_kernel.Sbull.Bios.{moved, bio-request}
use ldd3_kernel.Sbull.Devices.{Held, Answers, Outcome, nothing, add_device, add_device_balance}

abbrev disk : SbullDev
disk = record { open_counter = pos 0; capacity = 2; bytes = replicate 1024 0 }

disk-IsDisk : IsDisk disk
disk-IsDisk = record { has_bytes = length-replicate {A = ℕ} 1024 0; fits = omega arith }

abbrev segments : List Segment
segments = (1 ∷ 2 ∷ 3 ∷ []) ∷ (4 ∷ 5 ∷ []) ∷ []

abbrev blanks : List Segment
blanks = (0 ∷ 0 ∷ 0 ∷ []) ∷ (0 ∷ 0 ∷ []) ∷ []

-- At the end of the disk a request is cut short without an error; a bio fails.
abbrev tiny : SbullDev
tiny = record { open_counter = pos 0; capacity = 1; bytes = replicate 512 0 }

abbrev long_read : List Segment
long_read = replicate 513 7 ∷ []

bio_past_end_runs : process_bio false tiny long_read 0 ≡ done (tiny, long_read, false)
unfolding process_bio bio_loop to_long
bio_past_end_runs = refl

-- A bio at a sector whose byte offset is negative as a loff_t passes the test of the range.
bio_negative_runs : process_bio false tiny long_read (2 ^ 54) ≡ fault bad_access
unfolding process_bio bio_loop to_long
bio_negative_runs = refl

request_past_end_runs :
    process_request false tiny long_read 0 ≡ done (tiny, (replicate 512 0 ++ (7 ∷ [])) ∷ [], 512)
unfolding process_request request_loop to_size
request_past_end_runs = refl

geometry_runs : geometry 4096 ≡ record { heads = 66; sectors = 63; cylinders = 1 }
unfolding geometry
geometry_runs = refl

request-round_trip_example :
    (dev' : SbullDev) × (process_request true disk segments 1 ≡ done (dev', segments, 5))
    × (process_request false dev' blanks 1 ≡ done (dev', segments, 5))
request-round_trip_example =
    request-round_trip disk segments blanks 1 disk-IsDisk (refl, (refl, tt)) (omega arith)
      (omega arith)

bio-request_example :
    (sbull_submit_bio true disk segments 1 ≡ done (moved true disk segments 512))
    × (queue_rq true disk segments 1 ≡ done (moved true disk segments 512))
bio-request_example = bio-request true disk segments 1 disk-IsDisk (omega arith)

-- The tag set cannot be had.
abbrev answers : Answers
answers = record {
  kzalloc = true;
  vmalloc = true;
  alloc_tag_set = err enomem;
  alloc_disk = ok tt;
  add_disk = ok tt;
}

add_device_balance_example :
    (out : Held × Reply (Unit {0})) × (add_device answers nothing ≡ done out) × Outcome out
add_device_balance_example = add_device_balance answers
