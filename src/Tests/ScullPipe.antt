-- ===== src/Tests/ScullPipe.antt =====
-- A pipe with a buffer of 4 bytes, whose contents go round its end.
use ldd3_kernel.Prelude.{
  ℕ, ◌<◌, replicate, length-replicate, ◌≡◌, refl, true, false, List, [], ◌∷◌, some, ◌⊎◌, arith,
  ◌++◌,
}
use ldd3_kernel.Int.{pos, to_int, to_size, div_checked}
use ldd3_kernel.Kernel.{Errno, ok, err, done}
use ldd3_kernel.ScullPipe.{
  ScullPipe, File, Round, Ended, returned, wake_readers, wake_writers, spacefree, init_scull_pipe,
}
use ldd3_kernel.ScullPipe.Read.{scull_pipe_read, read_locked, take_data, bytes_from}
use ldd3_kernel.ScullPipe.Write.{scull_pipe_write, scull_getwritespace, put_data, write_space}
use ldd3_kernel.ScullPipe.Contents.{IsValid, contents}
use ldd3_kernel.Sleep.{Wake}
use ldd3_kernel.ScullPipe.Waiting.{LastMet, Replies}
use ldd3_kernel.ScullPipe.TakeData.{ReadResult, IsEmpty, GoodCopy, BadCopy}
use ldd3_kernel.ScullPipe.PutData.{WriteResult, IsFull, GoodInput, BadInput}
use ldd3_kernel.ScullPipe.ReadEffect.{scull_pipe_read_lem}
use ldd3_kernel.ScullPipe.WriteEffect.{scull_pipe_write_lem}
use ldd3_kernel.ScullPipe.Fifo.{over, reads, writes, pipe_fifo}
use ldd3_kernel.ScullPipe.Open.{scull_pipe_open, scull_pipe_release}
use ldd3_kernel.ScullPipe.Users.{Users, open-Users, release-Users}
use ldd3_kernel.Tests.Kernels.{kernel, kernel-IsLawful}

abbrev ring : ScullPipe
ring = record {
  buffer = some (1 ∷ 2 ∷ 3 ∷ 4 ∷ []);
  end = 4;
  buffersize = 4;
  rp = 3;
  wp = 1;
  nreaders = pos 1;
  nwriters = pos 1;
  async_queue = [];
  mutex = false;
}

abbrev file : File
file = record { id = 1; reads = true; writes = true; nonblock = true }

ring-IsValid : IsValid 4 ring
ring-IsValid = record {
  bytes = 1 ∷ 2 ∷ 3 ∷ 4 ∷ [];
  buffer_is = refl;
  length_is = refl;
  end_is = refl;
  buffersize_is = refl;
  rp_in = omega arith;
  wp_in = omega arith;
  large = omega arith;
  small = omega arith;
}

abbrev written : ScullPipe
written = record ring { buffer = some (1 ∷ 7 ∷ 3 ∷ 4 ∷ []); wp = 2 }

abbrev drained : ScullPipe
drained = record written { rp = 0 }

contents_run : contents ring ≡ 4 ∷ 1 ∷ []
contents_run = refl

-- There is room for one of the two bytes.
write_runs :
    scull_pipe_write kernel [] ring file (7 ∷ 8 ∷ []) 2
    ≡ done (returned written (ok 1) (wake_readers ∷ []))
unfolding scull_pipe_write scull_getwritespace put_data write_space spacefree to_int to_size
    div_checked
write_runs = refl

-- A read stops at the end of the buffer.
read_runs :
    scull_pipe_read kernel [] written file 9
    ≡ done (returned drained (ok (1, 4 ∷ [])) (wake_writers ∷ []))
unfolding scull_pipe_read read_locked take_data bytes_from to_size
read_runs = refl

written-IsValid : IsValid 4 written
written-IsValid = record {
  bytes = 1 ∷ 7 ∷ 3 ∷ 4 ∷ [];
  buffer_is = refl;
  length_is = refl;
  end_is = refl;
  buffersize_is = refl;
  rp_in = omega arith;
  wp_in = omega arith;
  large = omega arith;
  small = omega arith;
}

-- A reader that first found the pipe empty and was woken by a writer.
abbrev blocking : File
blocking = record file { nonblock = false }

abbrev empty_ring : ScullPipe
empty_ring = record ring { wp = 3 }

empty_ring-IsValid : IsValid 4 empty_ring
empty_ring-IsValid = record {
  bytes = 1 ∷ 2 ∷ 3 ∷ 4 ∷ [];
  buffer_is = refl;
  length_is = refl;
  end_is = refl;
  buffersize_is = refl;
  rp_in = omega arith;
  wp_in = omega arith;
  large = omega arith;
  small = omega arith;
}

abbrev woken : List Round
woken = record { signal = false; interrupted = false; found = written } ∷ []

-- A writer that first found it full and was woken by a reader.
abbrev full_ring : ScullPipe
full_ring = record ring { wp = 2 }

full_ring-IsValid : IsValid 4 full_ring
full_ring-IsValid = record {
  bytes = 1 ∷ 2 ∷ 3 ∷ 4 ∷ [];
  buffer_is = refl;
  length_is = refl;
  end_is = refl;
  buffersize_is = refl;
  rp_in = omega arith;
  wp_in = omega arith;
  large = omega arith;
  small = omega arith;
}

abbrev made_room : List Round
made_room = record { signal = false; interrupted = false; found = ring } ∷ []

scull_pipe_read_lem_example :
    (out : Ended (ℕ × List ℕ)) × (last : ScullPipe) × (wake : Wake) × (scull_pipe_read kernel woken
        empty_ring blocking 9
      ≡ done out)
    × LastMet IsEmpty false false woken empty_ring last wake
    × Replies (GoodCopy kernel) (BadCopy kernel last) wake out
    × ReadResult 4 9 last out
scull_pipe_read_lem_example =
    scull_pipe_read_lem kernel 4 blocking 9 woken empty_ring empty_ring-IsValid refl
      ((written-IsValid, refl), tt)

scull_pipe_write_lem_example :
    (out : Ended ℕ) × (last : ScullPipe) × (wake : Wake) × (scull_pipe_write kernel made_room
        full_ring blocking
        (7 ∷ 8 ∷ [])
        2
      ≡ done out)
    × LastMet (IsFull 4) false false made_room full_ring last wake
    × Replies (GoodInput kernel (7 ∷ 8 ∷ [])) (BadInput kernel (7 ∷ 8 ∷ []) 2) wake out
    × WriteResult 4 (7 ∷ 8 ∷ []) 2 last out
scull_pipe_write_lem_example =
    scull_pipe_write_lem kernel 4 blocking (7 ∷ 8 ∷ []) 2 kernel-IsLawful (omega arith) made_room
      full_ring full_ring-IsValid refl ((ring-IsValid, refl), tt)

pipe_fifo_example :
    (contents ring ++ (7 ∷ []) ≡ (4 ∷ []) ++ contents drained) × IsValid 4 drained × (false ≡ false)
pipe_fifo_example =
    pipe_fifo 4
      (writes kernel file (7 ∷ 8 ∷ []) 2 1 (wake_readers ∷ []) kernel-IsLawful (omega arith)
        write_runs (reads kernel file 9 1 (4 ∷ []) (wake_writers ∷ []) read_runs (over drained)))
      ring-IsValid refl

init-Users : Users 0 0 init_scull_pipe
unfolding init_scull_pipe
init-Users = record {
  readers_are = refl;
  writers_are = refl;
  used = λ h. absurd (omega arith);
  unused = λ h. refl;
  free = refl;
}

open-Users_example :
    ((dev' : ScullPipe) × (scull_pipe_open kernel init_scull_pipe file ≡ (dev', ok tt))
      × Users 1 1 dev'
      × (contents dev' ≡ []))
    ⊎ ((e : Errno) × (scull_pipe_open kernel init_scull_pipe file ≡ (init_scull_pipe, err e)))
open-Users_example =
    open-Users kernel 0 0 init_scull_pipe file kernel-IsLawful init-Users (omega arith)
      (omega arith) (omega arith)

-- A pipe that two readers and a writer have open
abbrev shared : ScullPipe
shared = record {
  buffer = some (replicate 4000 5);
  end = 4000;
  buffersize = 4000;
  rp = 0;
  wp = 3;
  nreaders = pos 2;
  nwriters = pos 1;
  async_queue = [];
  mutex = false;
}

shared-Users : Users 2 1 shared
shared-Users = record {
  readers_are = refl;
  writers_are = refl;
  used = λ h. record {
    bytes = replicate 4000 5;
    buffer_is = refl;
    length_is = length-replicate {A = ℕ} 4000 5;
    end_is = refl;
    buffersize_is = refl;
    rp_in = omega arith;
    wp_in = omega arith;
    large = omega arith;
    small = omega arith;
  };
  unused = λ h. absurd (omega arith);
  free = refl;
}

release-Users_example :
    let dev' = (scull_pipe_release (λ f mode queue. queue) shared file).0 in
    Users 1 0 dev' × (0 < 1 → contents dev' ≡ contents shared)
release-Users_example =
    release-Users (λ f mode queue. queue) 2 1 shared file shared-Users (omega arith) (omega arith)
      (omega arith) (omega arith) (omega arith)
