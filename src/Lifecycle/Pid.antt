-- ===== src/Lifecycle/Pid.antt =====
-- The process ids that the commands hand on as texts: in the pid file, and to `nsenter`.
use vibe_kata.Base.{
  ◌≡◌, ap, true, false, some, [], ◌∷◌, ◌++◌, get_elem?, Option, Option-cases, Bool-cases, inl, inr,
  arith,
}
use vibe_kata.Base.Int.{le_zero}
use vibe_kata.Base.Bytes.{CString, nonempty, snprintf-eq_self}
use vibe_kata.Base.Decimal.{
  decimal_int, int_value, int_value-decimal_int, int_value-decimal_line, length-decimal_int,
}
use vibe_kata.Files.{Files}
use vibe_kata.Jansson
use vibe_kata.Jansson.{Jansson}
use vibe_kata.Types.{Container}
use vibe_kata.State
use vibe_kata.State.{Env}
use vibe_kata.State.Loaded.{load-IsLoaded}
use vibe_kata.Container.Kernel.{Kernel}
use vibe_kata.Lifecycle.Running.{nsenter_argv, write_container_pid_file}

module _ {W J T : Type 0} (fs : Files W T) (js : Jansson J T) (env : Env) (k : Kernel W) where
  -- Where `write_container_pid_file` returns 0 for the name of a file, the container is stored with
  -- a process id above 0, the file was opened, and it was given a line that `strtol` reads as this
  -- process id. Whether the line reaches the file is not tested.
  pub write_container_pid_file_writes :
      (pid_file i : CString) (w : W)
      → nonempty (some pid_file) ≡ true
      → (write_container_pid_file fs js env k pid_file i w).0 ≡ some tt
      → (c : Container) × (line : CString) × (State.load fs js env i w ≡ some c)
        × (le_zero c.init_pid ≡ false)
        × (k.write_file pid_file line w
            ≡ (true, (write_container_pid_file fs js env k pid_file i w).1))
        × (int_value line ≡ c.init_pid)
  unfolding write_container_pid_file
  write_container_pid_file_writes pid_file i w named h =
      elim (Option-cases (State.load fs js env i w)) [
        | inl missing ↦ absurd (ground (arith, missing))
        | inr (c, found) ↦ elim (Bool-cases (le_zero c.init_pid)) [
          | inl stopped ↦ absurd (ground (arith, found, stopped))
          | inr alive ↦
              let line = decimal_int c.init_pid ++ (10 ∷ []) in
              elim (Bool-cases (k.write_file pid_file line w).0) [
                | inr failed ↦ absurd (ground (arith, found, alive, named, failed))
                | inl opened ↦ (
                  c,
                  line,
                  found,
                  alive,
                  ground (arith, found, alive, named, opened),
                  int_value-decimal_line c.init_pid,
                )
              ]
        ]
      ]

  module _ (L : Jansson.IsLawful js) where
    -- The target that `nsenter` is called with for a container that is loaded is read by `strtol`
    -- as its process id: the buffer of 32 bytes never cuts it.
    pub nsenter_argv_names :
        (i : CString) (w : W) {c : Container} (exec_cmd : Option CString)
        → State.load fs js env i w ≡ some c
        → (s : CString) × (get_elem? (nsenter_argv c.init_pid exec_cmd) 2 ≡ some s)
          × (int_value s ≡ c.init_pid)
    unfolding nsenter_argv
    nsenter_argv_names i w {c} exec_cmd h =
        let fits = (load-IsLoaded fs env L i w h).fits in
        let whole =
          snprintf-eq_self 32 (decimal_int c.init_pid)
            (omega (arith, length-decimal_int c.init_pid fits)) in
        (decimal_int c.init_pid, ap some whole, int_value-decimal_int c.init_pid)
