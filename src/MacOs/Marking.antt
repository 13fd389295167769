-- ===== src/MacOs/Marking.antt =====
-- What `pipe2` does with the descriptors that it makes.
use aser.Prelude.{
  ℕ, ◌⊎◌, inl, inr, ◌||◌, Bool-cases, ℤ, pos, minus_one, ◌≡◌, ◌≢◌, refl, ap, Bool, true, false,
  if◌then◌else◌, eqb_ℤ, ne→eqb_ℤ, eqb_ℤ_iff, sym,
}
use aser.Outcome.{ok, stop, thrown, invalid_argument}
use aser.Libc.{Posix}
use aser.MacOs.{Fcntl, has_flag, has_others, set_bit, with_flag, mark, pipe2}

-- The flags of descriptors, as `fcntl` reads and writes them.
pub record KeepsFlags {W : Type 0} (fcntl : Fcntl W) : Type 0 where
  pub flags_of : ℤ → W → ℕ
  pub gets : (fd : ℤ) (w : W) → fcntl.getfd fd w ≡ (pos (flags_of fd w), w)
  pub sets : (fd : ℤ) (v : ℕ) (w : W) → (fcntl.setfd fd (pos v) w).0 ≢ minus_one
  pub then_reads :
      (fd q : ℤ) (v : ℕ) (w : W)
      → flags_of q (fcntl.setfd fd (pos v) w).1 ≡ (if eqb_ℤ q fd then v else flags_of q w)

module _ {W : Type 0} (posix : Posix W) {fcntl : Fcntl W} (keeps : KeepsFlags fcntl) where
  open keeps use {flags_of}

  -- The flags of a descriptor after a call with these flags.
  abbrev pub marked : ℤ → ℕ → ℕ
  marked flags v = if has_flag fcntl.o_cloexec flags then set_bit fcntl.fd_cloexec v else v

  as_int :
      (flags : ℤ) (v : ℕ)
      → (if has_flag fcntl.o_cloexec flags then with_flag fcntl.fd_cloexec (pos v) else pos v)
        ≡ pos (marked flags v)
  unfolding with_flag
  as_int flags v = go (has_flag fcntl.o_cloexec flags)
    where
      go :
          (b : Bool)
          → (if b then with_flag fcntl.fd_cloexec (pos v) else pos v)
            ≡ pos (if b then set_bit fcntl.fd_cloexec v else v)
      go true = refl
      go false = refl

  mark_lem :
      (flags fd : ℤ) (w : W)
      → has_others fcntl.o_cloexec flags ≡ false
      → mark posix fcntl flags fd w
        ≡ (ok tt, (fcntl.setfd fd (pos (marked flags (flags_of fd w))) w).1)
  unfolding mark
  mark_lem flags fd w only = rw (
    keeps.gets fd w,
    only,
    as_int flags (flags_of fd w),
    ne→eqb_ℤ _ _ (keeps.sets fd (marked flags (flags_of fd w)) w),
  )

  -- The flags of a descriptor after both have been marked.
  marked_both :
      (flags a b q : ℤ) (v : W)
      → eqb_ℤ b a ≡ false
      → let w = (fcntl.setfd a (pos (marked flags (flags_of a v))) v).1 in
        flags_of q (fcntl.setfd b (pos (marked flags (flags_of b w))) w).1
        ≡ (if eqb_ℤ q a || eqb_ℤ q b then marked flags (flags_of q v) else flags_of q v)
  marked_both flags a b q v apart =
      let w = (fcntl.setfd a (pos (marked flags (flags_of a v))) v).1 in
      rw
        (
          keeps.then_reads b q (marked flags (flags_of b w)) w,
          keeps.then_reads a q (marked flags (flags_of a v)) v,
          keeps.then_reads a b (marked flags (flags_of a v)) v,
          apart,
        )
        (go (eqb_ℤ q a) (eqb_ℤ q b) refl refl)
    where
      go :
          (at_a at_b : Bool)
          → eqb_ℤ q a ≡ at_a
          → eqb_ℤ q b ≡ at_b
          → (if at_b
              then marked flags (flags_of b v)
              else if at_a
              then marked flags (flags_of a v)
              else flags_of q v)
            ≡ (if at_a || at_b then marked flags (flags_of q v) else flags_of q v)
      go true true x y = ap (λ r. marked flags (flags_of r v)) (sym ((eqb_ℤ_iff q b).0 y))
      go true false x y = ap (λ r. marked flags (flags_of r v)) (sym ((eqb_ℤ_iff q a).0 x))
      go false true x y = ap (λ r. marked flags (flags_of r v)) (sym ((eqb_ℤ_iff q b).0 y))
      go false false x y = refl

  -- Let `fcntl` read and write the flags of each descriptor, and let `pipe` make two different ones.
  -- Either no flag but `O_CLOEXEC` was given, and `pipe2` returns the two; then each of them has the
  -- flag `FD_CLOEXEC` added to its flags if `O_CLOEXEC` was given and its flags unchanged if not,
  -- and any other descriptor has its flags. Or there was another flag, and `pipe2` throws and does
  -- not close the two: the state is the one that `pipe` has left.
  pub pipe2-KeepsFlags :
      (fd : ℤ × ℤ) (flags q : ℤ) (w : W)
      → (posix.pipe fd w).0 ≡ pos 0
      → eqb_ℤ (posix.pipe fd w).1.1 (posix.pipe fd w).1.0 ≡ false
      → let (r, (a, b), v) = posix.pipe fd w in
        let (result, v') = pipe2 posix fcntl fd flags w in
        ((has_others fcntl.o_cloexec flags ≡ false)
          × (result ≡ ok (a, b))
          × (flags_of q v'
              ≡ (if eqb_ℤ q a || eqb_ℤ q b then marked flags (flags_of q v) else flags_of q v)))
        ⊎ ((has_others fcntl.o_cloexec flags ≡ true)
            × (result ≡ stop (thrown (invalid_argument "Flags not supported")))
            × (v' ≡ v))
  unfolding pipe2
  pipe2-KeepsFlags fd flags q w made apart =
      let (_, (a, b), v) = posix.pipe fd w in
      elim (Bool-cases (has_others fcntl.o_cloexec flags)) [
        | inl others ↦
            inr (
              others,
              rw (made, keeps.gets a v, others) refl,
              rw (made, keeps.gets a v, others) refl,
            )
        | inr only ↦
            let v₁ = (fcntl.setfd a (pos (marked flags (flags_of a v))) v).1 in
            let first = mark_lem flags a v only in
            let second = mark_lem flags b v₁ only in
            inl (
              only,
              rw (made, first, second) refl,
              rw (made, first, second) (marked_both flags a b q v apart),
            )
      ]
