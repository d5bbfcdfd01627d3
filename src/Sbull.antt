-- ===== src/Sbull.antt =====
-- block_device/sbull_device.h and sbull_device.c: a disk whose sectors are bytes in memory. Here: its
-- state, opening and closing, and the requests for geometry.
pub mod Transfer
pub mod Requests
pub mod Bios
pub mod Geometry
pub mod Devices
use ldd3_kernel.Prelude.{
  ℕ, ◌+◌, ◌*◌, ◌/◌, ◌%◌, ◌^◌, Bool, List, Option, none, some, ltb, ◌==◌, if◌then◌else◌,
}
use ldd3_kernel.Int.{ℤ, pos, ◌+ℤ◌, ◌-ℤ◌, to_int}
use ldd3_kernel.Kernel.{Reply, ok, err, einval, enotty, enxio}

-- `sbull_dev_t`; `bytes` is what `data` points to, and `open_counter` an atomic_t, an int that wraps.
pub record SbullDev : Type 0 where
  pub open_counter : ℤ
  pub capacity : ℕ
  pub bytes : List ℕ

abbrev pub sector_size : ℕ
sector_size = 512

-- By `disk->private_data`, which may be a null pointer
abbrev pub sbull_open : Option SbullDev → Option SbullDev × Reply (Unit {0})
sbull_open none = (none, err enxio)
sbull_open (some dev) =
    (some (record dev { open_counter = to_int (dev.open_counter +ℤ pos 1) }), ok tt)

abbrev pub sbull_release : Option SbullDev → Option SbullDev
sbull_release none = none
sbull_release (some dev) = some (record dev { open_counter = to_int (dev.open_counter -ℤ pos 1) })

-- `struct hd_geometry`: two bytes and an unsigned short
pub record HdGeometry : Type 0 where
  pub heads : ℕ
  pub sectors : ℕ
  pub cylinders : ℕ

abbrev pub by_quotient : ℕ → HdGeometry
by_quotient quotient =
    if ltb 255 quotient
    then record { heads = 255; sectors = 63; cylinders = (quotient + 254) / 255 % 2 ^ 16 }
    else record { heads = quotient % 2 ^ 8; sectors = 63; cylinders = 1 }

-- The geometry that ioctl_hdio_getgeo computes
unfoldable pub geometry : ℕ → HdGeometry
geometry capacity =
    if ltb 63 capacity
    then by_quotient ((capacity + 62) / 63)
    else record { heads = 1; sectors = capacity % 2 ^ 8; cylinders = 1 }

-- HDIO_GETGEO and CDROM_GET_CAPABILITY
abbrev pub hdio_getgeo : ℕ
hdio_getgeo = 769

abbrev pub cdrom_get_capability : ℕ
cdrom_get_capability = 21297

-- `copied` says whether copy_to_user has taken the geometry.
abbrev pub ioctl_hdio_getgeo : Bool → SbullDev → Reply HdGeometry
ioctl_hdio_getgeo copied dev = if copied then ok (geometry dev.capacity) else err einval

unfoldable pub sbull_ioctl : Bool → SbullDev → ℕ → Reply HdGeometry
sbull_ioctl copied dev cmd =
    if cmd == hdio_getgeo
    then ioctl_hdio_getgeo copied dev
    else if cmd == cdrom_get_capability
    then err einval
    else err enotty
