-- ===== src/State/Saved.antt =====
-- When the contents that `nk_state_save` hands to <stdio.h> are in the file: `fclose` writes what is still
-- buffered, and `nk_state_save` does not look at its result.
use vibe_kata.Base.{◌≡◌, ap, Bool, true, Option, none, some}
use vibe_kata.Base.Bytes.{CString}
use vibe_kata.Files.{Files}
use vibe_kata.Jansson.{Jansson}
use vibe_kata.Types.{Container}
use vibe_kata.State.Dir.{Env}
use vibe_kata.State.Store.{
  get_container_state_path, state_to_json, ensure_container_dir, dump_to, save,
}

module _ {W J T : Type 0} (fs : Files W T) (js : Jansson J T) where
  -- What `fclose` says after a write of the object to the path.
  abbrev pub write_flushes : CString → J → W → Bool
  write_flushes path root w = (fs.close path (dump_to fs js path root (fs.open_write path w).1).1).0

  module _ (env : Env) where
    abbrev flushes_as : Option CString → Container → W → Bool
    flushes_as none c w = true
    flushes_as (some i) c w =
        write_flushes (get_container_state_path env i) (state_to_json js i c)
          (ensure_container_dir fs env i w).1

    -- What `fclose` says in `nk_state_save`.
    abbrev pub save_flushes : Container → W → Bool
    save_flushes c w = flushes_as c.id c w

    -- The store returns 0, and what it has buffered is written.
    abbrev pub Saved : Container → W → Type 0
    Saved c w = ((save fs js env c w).0 ≡ some tt) × (save_flushes c w ≡ true)

    pub save_flushes_of_named :
        (c : Container) (i : CString) (w : W)
        → c.id ≡ some i
        → save_flushes c w
          ≡ write_flushes
              (get_container_state_path env i)
              (state_to_json js i c)
              (ensure_container_dir fs env i w).1
    save_flushes_of_named c i w named = ap (λ o. flushes_as o c w) named
