-- ===== src/Lifecycle/SameDir.antt =====
-- The directory that the commands make is the one in which the state files lie.
use vibe_kata.Base.{if◌then◌else◌, ◌≡◌, refl, Option, none, some, [], ◌∷◌, ◌==◌, arith}
use vibe_kata.Base.Bytes.{CString, bytes}
use vibe_kata.State.{Env, get_state_dir, state_dir_root, or_default, user_dir}
use vibe_kata.Lifecycle.StateDir.{
  choose_user_dir, choose_default_dir, choose_compat_dir, choose_run_dir, choose_state_dir,
}

choose_user_dir_lem : (home : Option CString) → (choose_user_dir home).0 ≡ user_dir home
unfolding choose_user_dir user_dir
choose_user_dir_lem none = refl
choose_user_dir_lem (some []) = refl
choose_user_dir_lem (some (b ∷ home)) = ground arith

choose_default_dir_lem :
    (env : Env)
    → (choose_default_dir env).0
      ≡ (if env.geteuid == 0 then state_dir_root else user_dir (env.getenv (bytes "HOME")))
unfolding choose_default_dir
choose_default_dir_lem env = ground (arith, choose_user_dir_lem (env.getenv (bytes "HOME")))

choose_compat_dir_lem :
    (o : Option CString) (d : CString × CString) → (choose_compat_dir o d).0 ≡ or_default o d.0
unfolding choose_compat_dir
choose_compat_dir_lem none d = refl
choose_compat_dir_lem (some []) d = refl
choose_compat_dir_lem (some (b ∷ s)) d = refl

choose_run_dir_lem :
    (o : Option CString) (d : CString × CString) → (choose_run_dir o d).0 ≡ or_default o d.0
unfolding choose_run_dir
choose_run_dir_lem none d = refl
choose_run_dir_lem (some []) d = refl
choose_run_dir_lem (some (b ∷ s)) d = refl

-- The state directory that src/main.c chooses, and makes before a creation, is the one that
-- src/common/state.c chooses and keeps the state files in.
pub choose_state_dir_lem : (env : Env) → (choose_state_dir env).0 ≡ get_state_dir env
unfolding choose_state_dir get_state_dir
choose_state_dir_lem env =
    rw choose_run_dir_lem (rw choose_compat_dir_lem (rw choose_default_dir_lem refl))
