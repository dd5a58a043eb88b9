-- ===== src/State/Dir.antt =====
-- The state directory and `mkdir_p` (src/common/state.c; src/main.c has a copy of each).
use vibe_kata.Base.{
  ℕ, Option, none, some, [], ◌∷◌, ◌++◌, leb, ltb, ◌==◌, length, ◌||◌, if◌then◌else◌,
}
use vibe_kata.Base.Bytes.{CString, bytes}
use vibe_kata.Effects.{M, pure, fail, ◌>>◌}
use vibe_kata.Files.{eexist, Files}

abbrev pub path_max : ℕ
path_max = 4096

-- What the process finds in its environment.
pub record Env : Type 0 where
  pub getenv : CString → Option CString
  pub geteuid : ℕ

-- `get_state_dir` from the values of NS_RUN_DIR, NK_RUN_DIR and HOME. The root directories are the
-- constants NS_STATE_DIR_ROOT and NS_STATE_DIR_USER_SUFFIX.
abbrev pub state_dir_root : CString
state_dir_root = bytes "/run/nano-sandbox"

abbrev pub state_dir_user_suffix : CString
state_dir_user_suffix = bytes "/.local/share/nano-sandbox/run"

abbrev pub or_default : Option CString → CString → CString
or_default none d = d
or_default (some []) d = d
or_default (some (b ∷ s)) d = b ∷ s

unfoldable pub user_dir : Option CString → CString
user_dir none = bytes "run"
user_dir (some []) = bytes "run"
user_dir (some (b ∷ home)) =
    let path = (b ∷ home) ++ state_dir_user_suffix in
    if ltb (length path) path_max then path else bytes "run"

unfoldable pub get_state_dir : Env → CString
unfolding user_dir
get_state_dir env = or_default (env.getenv (bytes "NS_RUN_DIR")) (
    or_default (env.getenv (bytes "NK_RUN_DIR"))
      (if env.geteuid == 0 then state_dir_root else user_dir (env.getenv (bytes "HOME"))))

-- `tmp`: the path without one slash at its end.
unfoldable pub strip_slash : CString → CString
strip_slash [] = []
strip_slash (b ∷ []) = if b == b'/' then [] else b ∷ []
strip_slash (b ∷ c ∷ s) = b ∷ strip_slash (c ∷ s)

module _ {W T : Type 0} (fs : Files W T) where
  -- `mkdir(tmp, mode) == -1 && errno != EEXIST` ends the call.
  unfoldable pub mkdir_or_exists : CString → ℕ → M W (Unit {0})
  mkdir_or_exists p mode w =
      let (e, w') = fs.mkdir p mode w in
      elim e [ none ↦ (some tt, w') | some eexist ↦ (some tt, w') | some _ ↦ (none, w') ]

  -- The loop over `tmp`, with what lies before `p` and from `p` on.
  unfoldable pub mkdir_loop : CString → CString → ℕ → M W (Unit {0})
  mkdir_loop seen [] mode = pure tt
  mkdir_loop seen (b ∷ rest) mode =
      let next = mkdir_loop (seen ++ (b ∷ [])) rest mode in
      if b == b'/' then (do mkdir_or_exists seen mode; next) else next

  -- The loop starts behind the first byte.
  unfoldable pub mkdir_parents : CString → ℕ → M W (Unit {0})
  mkdir_parents [] mode = pure tt
  mkdir_parents (b ∷ rest) mode = mkdir_loop (b ∷ []) rest mode

  unfoldable pub mkdir_p : CString → ℕ → M W (Unit {0})
  mkdir_p path mode =
      if leb (length path) 0 || leb path_max (length path)
      then fail
      else do let tmp = strip_slash path; mkdir_parents tmp mode; mkdir_or_exists tmp mode
