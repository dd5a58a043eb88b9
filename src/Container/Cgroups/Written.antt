-- ===== src/Container/Cgroups/Written.antt =====
-- What the control files of a cgroup are given.
use vibe_kata.Base.{ℕ, ◌≡◌, true, false, some, ◌==◌, Option-cases, Bool-cases, inl, inr, arith}
use vibe_kata.Base.Int.{ℤ, pos}
use vibe_kata.Base.Bytes.{CString, bytes}
use vibe_kata.Base.Decimal.{decimal, decimal_int, int_value, int_value-decimal_int}
use vibe_kata.Effects.{M}
use vibe_kata.Container.Kernel.{Kernel}
use vibe_kata.Container.Cgroups.{
  cgroup_file, write_control, cgroup_set_memory_limit, cgroup_set_cpu_shares, cgroup_set_pids_limit,
}

-- The three limits of a configuration.
pub data Limit : Type 0 where
  memory cpu pids : Limit

abbrev pub limit_file : Limit → CString
limit_file memory = bytes "/memory.max"
limit_file cpu = bytes "/cpu.weight"
limit_file pids = bytes "/pids.max"

int_value-decimal : (n : ℕ) → int_value (decimal n) ≡ pos n
unfolding decimal_int
int_value-decimal n = int_value-decimal_int (pos n)

module _ {W : Type 0} (k : Kernel W) where
  abbrev pub set_limit_of : Limit → CString → ℕ → M W (Unit {0})
  set_limit_of memory = cgroup_set_memory_limit k
  set_limit_of cpu = cgroup_set_cpu_shares k
  set_limit_of pids = cgroup_set_pids_limit k

  -- From the state, the control file is opened, and the write of the number's text to it succeeds.
  abbrev pub IsWritten : CString → CString → ℤ → W → Type 0
  IsWritten container_id name z w =
      (fd : ℕ) × (text : CString) × ((k.open_fd (cgroup_file container_id name) w).0 ≡ some fd)
      × ((k.write fd text (k.open_fd (cgroup_file container_id name) w).1).0 ≡ true)
      × (int_value text ≡ z)

  write_control-IsWritten :
      (i name text : CString) (z : ℤ) (w : W)
      → int_value text ≡ z
      → (write_control k (cgroup_file i name) text w).0 ≡ some tt
      → IsWritten i name z w
  unfolding write_control
  write_control-IsWritten i name text z w e h =
      let opened = k.open_fd (cgroup_file i name) w in
      elim (Option-cases opened.0) [
        | inl failed ↦ absurd (ground (arith, failed))
        | inr (fd, made) ↦ elim (Bool-cases (k.write fd text opened.1).0) [
          | inl written ↦ (fd, text, made, written, e)
          | inr cut ↦ absurd (ground (arith, made, cut))
        ]
      ]

  -- Where `nk_cgroup_set_memory_limit`, `nk_cgroup_set_cpu_shares` or `nk_cgroup_set_pids_limit`
  -- returns 0 for a limit that is not 0, the file memory.max, cpu.weight or pids.max of the
  -- container's cgroup is opened in the state of the call, and the write to it that follows, of a
  -- text that `strtol` reads as the limit, succeeds.
  pub set_limit-IsWritten :
      (l : Limit) (i : CString) (n : ℕ) (w : W)
      → (n == 0) ≡ false
      → (set_limit_of l i n w).0 ≡ some tt
      → IsWritten i (limit_file l) (pos n) w
  unfolding cgroup_set_memory_limit cgroup_set_cpu_shares cgroup_set_pids_limit
  set_limit-IsWritten memory i n w some_limit h =
      write_control-IsWritten i (bytes "/memory.max") (decimal n) (pos n) w (int_value-decimal n)
        (rw some_limit at h)
  set_limit-IsWritten cpu i n w some_limit h =
      write_control-IsWritten i (bytes "/cpu.weight") (decimal n) (pos n) w (int_value-decimal n)
        (rw some_limit at h)
  set_limit-IsWritten pids i n w some_limit h =
      write_control-IsWritten i (bytes "/pids.max") (decimal n) (pos n) w (int_value-decimal n)
        (rw some_limit at h)
