-- ===== src/Lifecycle/Release.antt =====
-- `nk_container_free` (src/main.c), apart from the release of memory: it closes the control descriptor if
-- there is one. No command sets one, so that the calls of it are left out of the commands.
use vibe_kata.Base.{◌≡◌, refl, some, if◌then◌else◌, arith}
use vibe_kata.Base.Int.{ℤ, pos, negsuc, int_eqb}
use vibe_kata.Base.Bytes.{CString}
use vibe_kata.Files.{Files}
use vibe_kata.Jansson
use vibe_kata.Jansson.{Jansson}
use vibe_kata.Types.{Container, Options}
use vibe_kata.State
use vibe_kata.State.{Env}
use vibe_kata.State.Loaded.{load-IsLoaded}
use vibe_kata.Container.Kernel.{Kernel}
use vibe_kata.Lifecycle.Defs.{new_container, as_running, as_stopped}

module _ {W : Type 0} (k : Kernel W) where
  -- `close` of a negative number does nothing.
  abbrev close_int : ℤ → W → W
  close_int (pos fd) w = k.close fd w
  close_int (negsuc n) w = w

  unfoldable pub container_free : Container → W → W
  container_free c w = if int_eqb c.control_fd (negsuc 0) then w else close_int c.control_fd w

  container_free_unset : (c : Container) (w : W) → c.control_fd ≡ negsuc 0 → container_free c w ≡ w
  unfolding container_free
  container_free_unset c w h = ground (arith, h)

  -- Nothing is closed for the container that a creation stores.
  pub container_free-new_container :
      (opts : Options) (i : CString) (w : W) → container_free (new_container opts i) w ≡ w
  unfolding new_container
  container_free-new_container opts i w = container_free_unset (new_container opts i) w refl

  -- Nor is it for a container that was loaded, also once it is marked as running or as stopped.
  pub container_free_loaded :
      {J T : Type 0} (fs : Files W T) {js : Jansson J T} (env : Env) (L : Jansson.IsLawful js)
      (i : CString) (pid : ℤ) (v w : W) {c : Container}
      → State.load fs js env i v ≡ some c
      → (container_free c w ≡ w)
        × (container_free (as_running c pid) w ≡ w)
        × (container_free (as_stopped c) w ≡ w)
  container_free_loaded fs env L i pid v w {c} h =
      let unset : c.control_fd ≡ negsuc 0 = (load-IsLoaded fs env L i v h).no_fd in
      (
        container_free_unset c w unset,
        container_free_unset (as_running c pid) w unset,
        container_free_unset (as_stopped c) w unset,
      )
