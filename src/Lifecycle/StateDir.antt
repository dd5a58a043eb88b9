-- ===== src/Lifecycle/StateDir.antt =====
-- src/main.c: its own choice of the state directory, which it also prints.
use vibe_kata.Base.{Option, none, some, [], ◌∷◌, ◌++◌, ◌==◌, ltb, length, if◌then◌else◌}
use vibe_kata.Base.Bytes.{CString, bytes}
use vibe_kata.State.{Env, path_max, state_dir_root, state_dir_user_suffix}

-- The directory, and the line that is printed of it.
abbrev announced : CString → CString → CString × CString
announced label dir = (dir, bytes "[GET_STATE_DIR] " ++ (label ++ (dir ++ bytes "\n")))

abbrev fallback : CString × CString
fallback = (bytes "run", bytes "[GET_STATE_DIR] fallback: run\n")

-- The default below the home directory.
unfoldable pub choose_user_dir : Option CString → CString × CString
choose_user_dir none = fallback
choose_user_dir (some []) = fallback
choose_user_dir (some (b ∷ home)) =
    let path = (b ∷ home) ++ state_dir_user_suffix in
    if ltb (length path) path_max then announced (bytes "default (user): ") path else fallback

unfoldable pub choose_default_dir : Env → CString × CString
unfolding choose_user_dir
choose_default_dir env =
    if env.geteuid == 0
    then announced (bytes "default (root): ") state_dir_root
    else choose_user_dir (env.getenv (bytes "HOME"))

-- NK_RUN_DIR, which older scripts set
unfoldable pub choose_compat_dir : Option CString → CString × CString → CString × CString
choose_compat_dir none default = default
choose_compat_dir (some []) default = default
choose_compat_dir (some (b ∷ dir)) default =
    (b ∷ dir, bytes "[GET_STATE_DIR] NK_RUN_DIR=" ++ ((b ∷ dir) ++ bytes " (compat)\n"))

unfoldable pub choose_run_dir : Option CString → CString × CString → CString × CString
choose_run_dir none default = default
choose_run_dir (some []) default = default
choose_run_dir (some (b ∷ dir)) default = announced (bytes "NS_RUN_DIR=") (b ∷ dir)

-- `get_state_dir` of src/main.c
unfoldable pub choose_state_dir : Env → CString × CString
unfolding choose_run_dir choose_compat_dir choose_default_dir
choose_state_dir env =
    choose_run_dir (env.getenv (bytes "NS_RUN_DIR"))
      (choose_compat_dir (env.getenv (bytes "NK_RUN_DIR")) (choose_default_dir env))
