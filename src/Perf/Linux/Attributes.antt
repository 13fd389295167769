-- ===== src/Perf/Linux/Attributes.antt =====
-- The attributes that `open` asks the kernel for.
use Prim.Native.Nat.{bit_and}
use aser.Prelude.{ℕ, zero, suc, ◌%◌, ◌≡◌, refl, Bool, true, false, not, arith}
use aser.Libc.{Posix}
use aser.Perf.{EventInfo, valid_modifiers, exclude_user, exclude_kernel, exclude_hv}
use aser.Perf.Linux.{PerfKernel, bit, flag, attributes}

-- The lowest bit of each exclusion.
LowestBits : ℕ → Type 0
LowestBits m =
    (bit_and m exclude_user % 2 ≡ m % 2)
    × (bit_and m exclude_kernel % 2 ≡ 0)
    × (bit_and m exclude_hv % 2 ≡ 0)

-- The eight modifiers that are valid.
lowest_bits : (m : ℕ) → valid_modifiers m ≡ true → LowestBits m
unfolding LowestBits valid_modifiers
lowest_bits zero v = (refl, refl, refl)
lowest_bits (suc zero) v = (refl, refl, refl)
lowest_bits (suc (suc zero)) v = (refl, refl, refl)
lowest_bits (suc (suc (suc zero))) v = (refl, refl, refl)
lowest_bits (suc (suc (suc (suc zero)))) v = (refl, refl, refl)
lowest_bits (suc (suc (suc (suc (suc zero))))) v = (refl, refl, refl)
lowest_bits (suc (suc (suc (suc (suc (suc zero)))))) v = (refl, refl, refl)
lowest_bits (suc (suc (suc (suc (suc (suc (suc zero))))))) v = (refl, refl, refl)
lowest_bits (suc (suc (suc (suc (suc (suc (suc (suc m)))))))) v = absurd (ground arith)

bit_mod : (b : Bool) → bit b % 2 ≡ bit b
bit_mod true = refl
bit_mod false = refl

module _ {W : Type 0} (posix : Posix W) (kernel : PerfKernel W) (info : EventInfo)
    (attach : Bool) where
  flag_one : kernel.flag_bits ≡ 1 → (n : ℕ) → flag posix kernel n ≡ n % 2
  unfolding flag
  flag_one w n = rw w

  -- Let the flags be bit-fields of one bit, as the kernel's header has them. Then the event is
  -- inherited, it starts disabled and is enabled by `exec` exactly if it is not attached, events in
  -- user space are excluded exactly if the modifiers have EXCLUDE_USER, and those in the kernel and
  -- in the hypervisor are never excluded, whatever valid modifiers are given.
  pub attributes_lem :
      kernel.flag_bits ≡ 1
      → valid_modifiers info.modifiers ≡ true
      → let a = attributes posix kernel info attach in
        (a.inherit ≡ 1)
        × (a.disabled ≡ bit (not attach))
        × (a.enable_on_exec ≡ bit (not attach))
        × (a.exclude_user ≡ info.modifiers % 2)
        × (a.exclude_kernel ≡ 0)
        × (a.exclude_hv ≡ 0)
  unfolding attributes LowestBits
  attributes_lem w v = (
    flag_one w 1,
    rw (flag_one w) (bit_mod (not attach)),
    rw (flag_one w) (bit_mod (not attach)),
    rw (flag_one w) (lowest_bits info.modifiers v).0,
    rw (flag_one w) (lowest_bits info.modifiers v).1,
    rw (flag_one w) (lowest_bits info.modifiers v).2,
  )
