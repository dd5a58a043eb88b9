-- ===== src/Tests/Fixtures.antt =====
-- The disks of the commands, what `nk_state_load` returns on them, and the laws of the kernel.
use vibe_kata.Base.{
  ◌≡◌, refl, Option-cases, inl, inr, ap, subst, sym, ◌∙◌, arith, true, Option, none, some, is_some,
  ℕ,
}
use mathlib.Core.Option.{some-injective}
use vibe_kata.Base.Int.{pos, to_int32, IsInt32}
use vibe_kata.Base.Bytes.{bytes, str_eq}
use vibe_kata.Files.{Errno}
use vibe_kata.Files.Memory.{Disk, disk_files}
use vibe_kata.Jansson.Value.{Value, json_values}
use vibe_kata.Types.{created, running, Container}
use vibe_kata.State
use vibe_kata.State.{
  get_container_state_path, get_state_dir, mkdir_p, strip_slash, get_container_dir, mkdir_loop,
  mkdir_parents, mkdir_or_exists, ensure_container_dir, make_container_dir, write_state, dump_to,
  state_to_json, string_to_state, state_to_string, mode_to_string, string_to_mode,
  json_to_container, parse_state, string_member, integer_member,
}
use vibe_kata.State.Saved.{save_flushes, save_flushes_of_named}
use vibe_kata.Container.Kernel.{PipesDeliver}
use vibe_kata.Lifecycle.{Outcome, returned, crashed}
use vibe_kata.Lifecycle.Checked.{PidsFit}
use vibe_kata.Tests.World.{env, empty_disk, stored_disk, held, kernel, pipe_byte, sent_node}

pub pipe_byte_sent : (o : Option ℕ) {b : ℕ} → pipe_byte (sent_node o) ≡ some b → o ≡ some b
pipe_byte_sent none h = cc
pipe_byte_sent (some a) h = h

pub kernel-PipesDeliver : (e : Option Errno) → PipesDeliver (kernel e)
unfolding str_eq
kernel-PipesDeliver e = record {
  delivered = λ flags child w w' fd_read fd_write {pid} {b} h sent.
      (w, pipe_byte_sent (child w).0.sent (ap (λ r. pipe_byte (r.1 (bytes "p"))) h ∙ sent));
}

pub kernel-PidsFit : (e : Option Errno) → PidsFit (kernel e)
kernel-PidsFit e = record {
  fits = λ flags child w {pid} h. subst IsInt32 (some-injective (pos 42) pid h) (omega arith);
}

-- The memory has nothing buffered.
pub flushes : (c : Container) (w : Disk Value) → save_flushes disk_files json_values env c w ≡ true
unfolding disk_files
flushes c w = elim (Option-cases c.id) [
  | inl e ↦ rw e refl
  | inr (i, e) ↦ rw (save_flushes_of_named disk_files json_values env c i w e) refl
]

abbrev pub created_disk : Disk Value
created_disk = stored_disk (bytes "created") 0

abbrev pub running_disk : Disk Value
running_disk = stored_disk (bytes "running") 7

abbrev pub world_of : Outcome (Disk Value) ℕ → Disk Value
world_of crashed = empty_disk
world_of (returned r w) = w

pub same_id :
    (o : Option Container) (d c : Container)
    → o ≡ some d
    → o ≡ some c
    → d.id ≡ some (bytes "c")
    → c.id ≡ some (bytes "c")
same_id o d c e l h = ap (λ (x : Container). x.id) (sym (some-injective d c (sym e ∙ l))) ∙ h

pub loads_created :
    State.load disk_files json_values env (bytes "c") created_disk ≡ some (held created (pos 0))
unfolding State.load parse_state json_to_container string_member integer_member string_to_state
    string_to_mode get_container_state_path get_state_dir disk_files json_values str_eq to_int32
loads_created = refl

pub loads_running :
    State.load disk_files json_values env (bytes "c") running_disk ≡ some (held running (pos 7))
unfolding State.load parse_state json_to_container string_member integer_member string_to_state
    string_to_mode get_container_state_path get_state_dir disk_files json_values str_eq to_int32
loads_running = refl

pub c_encodes : is_some (json_values.string (bytes "c")) ≡ true
unfolding json_values
c_encodes = refl

pub b_encodes : is_some (json_values.string (bytes "/b")) ≡ true
unfolding json_values
b_encodes = refl
