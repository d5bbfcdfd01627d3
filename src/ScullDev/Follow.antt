-- ===== src/ScullDev/Follow.antt =====
-- scull_follow, and the arithmetic that turns a file position into a place in the list.
use ldd3_kernel.Prelude.{ℕ, zero, suc, ◌+◌, Bool, true, false, List, [], ◌∷◌, none, some, get_elem?}
use ldd3_kernel.Int.{ℤ, pos, negsuc, ◌*ℤ◌, to_int, div_checked}
use ldd3_kernel.Kernel.{Kernel, Run, done, fault, divide_error, bad_access, ◌>>=◌}
use ldd3_kernel.ScullDev.{ScullDev, ScullQset, zeroed_qset}

-- sizeof(struct scull_qset), sizeof(char*)
abbrev pub qset_bytes : ℕ
qset_bytes = 16

abbrev pub pointer_bytes : ℕ
pointer_bytes = 8

abbrev pub after_node : ScullQset → List ScullQset × Bool × ℕ → List ScullQset × Bool × ℕ
after_node node (rest, found, c) = (node ∷ rest, found, c)

-- `scull_follow` from one link of the list: `n` more nodes to pass, the next request for memory is
-- number `c`. The result is the list with the nodes that were added, whether the node was reached,
-- and the number of the next request. A null link is allocated both at the start and in the loop.
unfoldable pub follow : Kernel → ℕ → ℕ → List ScullQset → List ScullQset × Bool × ℕ
follow k c zero [] = elim (k.kmalloc c qset_bytes) [
  | none ↦ ([], false, c + 1)
  | some _ ↦ (zeroed_qset ∷ [], true, c + 1)
]
follow k c zero (node ∷ rest) = (node ∷ rest, true, c)
follow k c (suc n) [] =
    let later = follow k (c + 1) n [] in
    elim (k.kmalloc c qset_bytes) [
      | none ↦ ([], false, c + 1)
      | some _ ↦ after_node zeroed_qset later
    ]
follow k c (suc n) (node ∷ rest) = after_node node (follow k c n rest)

-- `item`, `s_pos` and `q_pos`.
pub record Place : Type 0 where
  pub item : ℤ
  pub s_pos : ℤ
  pub q_pos : ℤ

abbrev pub itemsize : ScullDev → ℤ
itemsize dev = to_int (dev.quantum *ℤ dev.qset)

abbrev pub divide : ℤ → ℤ → Run (ℤ × ℤ)
divide a b = elim (div_checked a b) [ none ↦ fault divide_error | some r ↦ done r ]

-- listitem, qset index, and offset in the quantum of a file position
unfoldable pub locate : ScullDev → ℤ → Run Place
locate dev f_pos = divide f_pos (itemsize dev) >>= λ by_item.
    divide (to_int by_item.1) dev.quantum >>= λ by_quantum.
    done
      (record { item = to_int by_item.0; s_pos = to_int by_quantum.0; q_pos = to_int by_quantum.1 })

-- An array access: outside the array it is an access to memory that is not its own.
abbrev pub fetch {ℓ} : {A : Type ℓ} → List A → ℕ → Run A
fetch xs i = elim (get_elem? xs i) [ none ↦ fault bad_access | some a ↦ done a ]

abbrev pub slot_at {ℓ} : {A : Type ℓ} → List A → ℤ → Run A
slot_at xs (pos i) = fetch xs i
slot_at xs (negsuc i) = fault bad_access
