-- ===== src/Tests/ScullMem.antt =====
-- scullc with quanta of 160 bytes, which two chunks fill, and scullp and scullv with one page.
use ldd3_kernel.Prelude.{
  ℕ, ◌<◌, ◌≡◌, refl, false, List, [], ◌∷◌, ◌++◌, none, some, arith, replicate, take,
  length-replicate,
}
use ldd3_kernel.Int.{pos, to_int, to_uint, to_long, to_size, div_checked}
use ldd3_kernel.Kernel.{Kernel, ok, done, fault, stack_smashed, ◌>>=◌}
use ldd3_kernel.ScullDev.Follow.{follow, locate}
use ldd3_kernel.ScullDev.Read.{scull_dev_read}
use ldd3_kernel.ScullDev.Write.{scull_dev_write, array_or_new}
use ldd3_kernel.ScullDev.Valid.{IsValid}
use ldd3_kernel.ScullDev.Lookup.{Fits}
use ldd3_kernel.ScullDev.WriteEffect.{CanWrite}
use ldd3_kernel.ScullMem.Write.{write_with}
use ldd3_kernel.ScullMem.Zeroing.{zeroed}
use ldd3_kernel.ScullMem.Paged.{quantum_of_lem}
use ldd3_kernel.Scullc.{
  ScullcDev, as_scull, with_scull, scullc_ops, scullc_dev_read, scullc_dev_write,
}
use ldd3_kernel.Scullc.Chunks.{send_chunks, receive_chunks}
use ldd3_kernel.Scullc.Copies.{answer, left_over, send_chunks_lem}
use ldd3_kernel.Scullc.Refinement.{
  chunked, IsCached, scullc_dev_read_lem, scullc_dev_write_lem, scullc_write_read,
}
use ldd3_kernel.Scullp
use ldd3_kernel.Scullv
use ldd3_kernel.Scullp.{ScullpDev, scullp_dev_read, scullp_dev_write}
use ldd3_kernel.Scullp.Refinement.{scullp_big_read}
use ldd3_kernel.Scullv.{ScullvDev, scullv_dev_read, scullv_dev_write}
use ldd3_kernel.Scullv.Refinement.{scullv_write_read}
use ldd3_kernel.Tests.Kernels.{kernel, kernel-IsLawful, kernel-IsGenerous}

abbrev each : ℕ → Kernel
each at = kernel

abbrev cached : ScullcDev
cached = record {
  qsets = [];
  quantum = pos 160;
  qset = pos 2;
  size = 0;
  mutex = false;
  cache = 160;
}

abbrev input : List ℕ
input = replicate 150 7

cached-IsCached : IsCached 160 cached
cached-IsCached = record { cache_is = refl; quantum_is = refl; quantum_fits = omega arith }

cached-IsValid : IsValid 160 2 (as_scull cached)
cached-IsValid = record {
  quantum_is = refl;
  qset_is = refl;
  quantum_pos = omega arith;
  qset_pos = omega arith;
  item_fits = omega arith;
  size_fits = omega arith;
  nodes_fit = tt;
}

can_write : CanWrite 160 2 (as_scull cached) input 150 165
can_write = record {
  valid = cached-IsValid;
  buf_fits = omega arith;
  reachable = omega arith;
  in_range = omega arith;
}

can_read : Fits 160 2 (as_scull cached) 150 165
can_read = record {
  valid = cached-IsValid;
  reachable = omega arith;
  position_fits = omega arith;
  count_fits = omega arith;
}

-- The quantum is cleared before the bytes go in.
write_runs :
    scullc_dev_write kernel each cached input 150 (pos 165)
    ≡ done (
      record cached {
        qsets =
            record {
              quanta =
                  some (none ∷ some (replicate 5 0 ++ (replicate 150 7 ++ replicate 5 0)) ∷ []);
            }
            ∷ [];
        size = 315;
      },
      pos 315,
      ok 150,
    )
unfolding scullc_dev_write write_with scullc_ops receive_chunks zeroed locate follow array_or_new
    to_int to_uint to_long to_size div_checked
write_runs = refl

send_chunks_lem_example :
    send_chunks 151 each (replicate 160 7) 4 150 0
    ≡ done (answer (left_over 150 each (take 150 (replicate 156 7)) 0) (take 150 (replicate 156 7)))
send_chunks_lem_example =
    send_chunks_lem each 150 (replicate 160 7) 4 150 0 (omega arith) (omega arith) (omega arith)

scullc_dev_read_lem_example : scullc_dev_read kernel each cached 150 (pos 165) ≡ (
    scull_dev_read (chunked kernel each) (as_scull cached) 150 (pos 165) >>= λ out.
    done (with_scull cached out.0, out.1, out.2))
scullc_dev_read_lem_example =
    scullc_dev_read_lem 160 2 kernel each kernel-IsLawful (λ at. kernel-IsLawful) cached
      cached-IsCached 150 165 can_read

scullc_dev_write_lem_example : scullc_dev_write kernel each cached input 150 (pos 165) ≡ (
    scull_dev_write (chunked kernel each) (as_scull cached) input 150 (pos 165) >>= λ out.
    done (with_scull cached out.0, out.1, out.2))
scullc_dev_write_lem_example =
    scullc_dev_write_lem 160 2 kernel each kernel-IsLawful (λ at. kernel-IsLawful) cached
      cached-IsCached input 150 165 can_write

scullc_write_read_example :
    (0 < 150)
    × (mid : ScullcDev) × (last : ScullcDev) × (scullc_dev_write kernel each cached input 150
          (pos 165)
        ≡ done (mid, pos 315, ok 150))
    × (scullc_dev_read kernel each mid 150 (pos 165)
        ≡ done (last, pos 315, ok (150, replicate 150 7)))
scullc_write_read_example =
    scullc_write_read 160 2 kernel kernel each each kernel-IsLawful (λ at. kernel-IsLawful)
      kernel-IsGenerous (λ at. kernel-IsGenerous) kernel-IsLawful (λ at. kernel-IsLawful)
      kernel-IsGenerous (λ at. kernel-IsGenerous) cached input 150 165 cached-IsCached can_write
      refl (omega arith)

abbrev paged : ScullpDev
paged = record { qsets = []; order = 0; qset = pos 2; size = 0; mutex = false }

abbrev page : List ℕ
page = replicate 4096 7

abbrev full : ScullpDev
full = record paged { qsets = record { quanta = some (some page ∷ none ∷ []) } ∷ []; size = 4096 }

full-IsValid : IsValid 4096 2 (Scullp.as_scull full)
full-IsValid = record {
  quantum_is = quantum_of_lem 0 (omega arith);
  qset_is = refl;
  quantum_pos = omega arith;
  qset_pos = omega arith;
  item_fits = omega arith;
  size_fits = omega arith;
  nodes_fit = ((refl, (length-replicate {A = ℕ} 4096 7, (tt, tt))), tt);
}

paged-IsValid : IsValid 4096 2 (Scullp.as_scull paged)
paged-IsValid = record {
  quantum_is = quantum_of_lem 0 (omega arith);
  qset_is = refl;
  quantum_pos = omega arith;
  qset_pos = omega arith;
  item_fits = omega arith;
  size_fits = omega arith;
  nodes_fit = tt;
}

scullp_big_read_example : scullp_dev_read kernel full 2000 (pos 0) ≡ fault stack_smashed
scullp_big_read_example =
    scullp_big_read 2 kernel full 2000 0 page
      (record {
        valid = full-IsValid;
        reachable = omega arith;
        position_fits = omega arith;
        count_fits = omega arith;
      })
      refl (omega arith) refl (omega arith)

abbrev mapped : ScullvDev
mapped = record { qsets = []; order = 0; qset = pos 2; size = 0; mutex = false }

mapped-IsValid : IsValid 4096 2 (Scullv.as_scull mapped)
mapped-IsValid = record {
  quantum_is = quantum_of_lem 0 (omega arith);
  qset_is = refl;
  quantum_pos = omega arith;
  qset_pos = omega arith;
  item_fits = omega arith;
  size_fits = omega arith;
  nodes_fit = tt;
}

scullv_write_read_example :
    (0 < 150)
    × (mid : ScullvDev) × (last : ScullvDev) × (scullv_dev_write kernel mapped input 150 (pos 4100)
        ≡ done (mid, pos 4250, ok 150))
    × (scullv_dev_read kernel mid 150 (pos 4100) ≡ done (last, pos 4250, ok (150, replicate 150 7)))
scullv_write_read_example =
    scullv_write_read 2 kernel kernel kernel-IsLawful kernel-IsGenerous kernel-IsLawful
      kernel-IsGenerous mapped input 150 4100 (omega arith)
      (record {
        valid = mapped-IsValid;
        buf_fits = omega arith;
        reachable = omega arith;
        in_range = omega arith;
      })
      refl (omega arith) (omega arith)
