-- ===== src/ScullDev/SeekBounds.antt =====
-- Where scull_dev_llseek may put the position.
use ldd3_kernel.Prelude.{ℕ, ◌≡◌, refl, false, Option, none, some, ◌⊎◌, inl, inr, true}
use ldd3_kernel.Int.{ℤ, pos, negsuc, is_neg}
use ldd3_kernel.Kernel.{Reply, ok, err, einval}
use ldd3_kernel.ScullDev.{ScullDev}
use ldd3_kernel.ScullDev.Seek.{scull_dev_llseek, seek_target, seek_to}

-- The position and reply of a seek: the target, or the old position with EINVAL where there is no
-- target or a negative one.
abbrev pub Sought : ℤ → Option ℤ → ℤ × Reply ℤ → Type 0
Sought f_pos o (f_pos', r) =
    ((o ≡ some f_pos') × (r ≡ ok f_pos'))
    ⊎ ((f_pos' ≡ f_pos)
        × (r ≡ err einval)
        × ((o ≡ none) ⊎ ((target : ℤ) × (o ≡ some target) × (is_neg target ≡ true))))

seek_to-Sought :
    (f_pos : ℤ) (o : Option ℤ)
    → is_neg f_pos ≡ false
    → (is_neg (seek_to f_pos o).0 ≡ false) × Sought f_pos o (seek_to f_pos o)
seek_to-Sought f_pos none h = (h, inr (refl, refl, inl refl))
seek_to-Sought f_pos (some (pos n)) h = (refl, inl (refl, refl))
seek_to-Sought f_pos (some (negsuc n)) h = (h, inr (refl, refl, inr (negsuc n, refl, refl)))

-- From a position that is not negative a seek ends at one that is not: either at the target, which
-- it returns, or, with EINVAL, where it was, and then `whence` is unknown or the target negative.
pub llseek_bounds :
    (dev : ScullDev) (f_pos off : ℤ) (whence : ℕ)
    → is_neg f_pos ≡ false
    → (is_neg (scull_dev_llseek dev f_pos off whence).0 ≡ false)
      × Sought f_pos (seek_target dev f_pos off whence) (scull_dev_llseek dev f_pos off whence)
unfolding scull_dev_llseek
llseek_bounds dev f_pos off whence h = seek_to-Sought f_pos (seek_target dev f_pos off whence) h
