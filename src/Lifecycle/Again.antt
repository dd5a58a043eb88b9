-- ===== src/Lifecycle/Again.antt =====
-- An id is free once its container is deleted.
use vibe_kata.Base.{◌≡◌, Bool, some, true, is_some, arith}
use vibe_kata.Base.Bytes.{CString}
use vibe_kata.Files
use vibe_kata.Files.{Files, directory}
use vibe_kata.Jansson
use vibe_kata.Jansson.{Jansson}
use vibe_kata.Types.{Container, Options}
use vibe_kata.State
use vibe_kata.State.{Env, get_state_dir, get_container_state_path}
use vibe_kata.Container.Kernel.{Kernel}
use vibe_kata.Lifecycle.StateDir.{choose_state_dir}
use vibe_kata.Lifecycle.SameDir.{choose_state_dir_lem}
use vibe_kata.Lifecycle.Defs.{ensure_state_dir, has_valid_spec, new_container, create_new, create}
use vibe_kata.Lifecycle.Running.{delete}
use vibe_kata.Lifecycle.Steps.{IsUsable, Saves, Deletes}
use vibe_kata.Lifecycle.Created.{create_flushes, create_stores}
use vibe_kata.Lifecycle.Ended.{delete_removes}

module _ {W J T : Type 0} {fs : Files W T} {js : Jansson J T} (env : Env) (k : Kernel W)
    {same_file : CString → CString → Bool} (F : Files.IsLawful fs same_file)
    (L : Jansson.IsLawful js) where
  -- Once a stored container is deleted, its id can be used again: a creation with this id returns 0
  -- and the new container is loaded, where the state file could be deleted, the state directory is
  -- there, the bundle has a valid specification and the store, `fclose` included, succeeds. This is
  -- for an id that is valid UTF-8 and a bundle path that is not empty and can be stored.
  pub delete-create :
      (opts : Options) (i : CString) (w : W) {c : Container}
      → State.load fs js env i w ≡ some c
      → Deletes fs js env k i w
      → IsUsable fs js env k opts
      → is_some (js.string i) ≡ true
      → let w1 = (delete fs js env k i w).1 in
        fs.stat (get_state_dir env) w1 ≡ some directory
        → has_valid_spec fs js env opts.bundle_path w1 ≡ true
        → Saves fs js env k (new_container opts i) w1
        → ((create fs js env opts i w1).0 ≡ some tt)
          × (State.load fs js env i (create fs js env opts i w1).1
              ≡ some (record (new_container opts i) {
                state_file = some (get_container_state_path env i);
              }))
  unfolding create new_container ensure_state_dir create_new
  delete-create opts i w {c} loaded deleted usable encodes dir valid saved =
      let w1 = (delete fs js env k i w).1 in
      let (_, free) = (delete_removes js env k F i w c loaded).1 (deleted c loaded) in
      let there : fs.stat (choose_state_dir env).0 w1 ≡ some directory =
        rw choose_state_dir_lem dir in
      let made : (create fs js env opts i w1).0 ≡ some tt =
        ground (arith, there, free, valid, saved.0) in
      let same_world : (ensure_state_dir fs env w1).1 ≡ w1 = ground (arith, there) in
      let flushed : create_flushes fs js env opts i w1 ≡ true = rw same_world saved.1 in
      (made, (create_stores js env F L opts i w1 made flushed usable.full encodes usable.encodes).2)
