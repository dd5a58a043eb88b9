-- ===== src/Tests/Calls.antt =====
-- Examples of calls on the state files.
use vibe_kata.Base.{List, inr, ◌≡◌, refl, none, some, [], ◌∷◌, inl, arith}
use vibe_kata.Base.Int.{pos, to_int32}
use vibe_kata.Base.Bytes.{bytes, str_eq}
use vibe_kata.Files.Memory.{disk_files, disk_files-IsLawful}
use vibe_kata.Jansson.Value.{json_values, json_values-IsLawful}
use vibe_kata.Types.{created}
use vibe_kata.State
use vibe_kata.State.{
  mkdir_p, strip_slash, get_container_dir, mkdir_loop, mkdir_parents, mkdir_or_exists,
  ensure_container_dir, make_container_dir, write_state, dump_to, state_to_json, state_to_string,
  mode_to_string, get_container_state_path, get_state_dir, parse_state, json_to_container,
  string_member, integer_member, string_to_state, string_to_mode,
}
use vibe_kata.State.Map.{
  Call, saves, loads, deletes, Answer, done, found, Stored, answers, perform_all, Agrees,
  perform_all-answers,
}
use vibe_kata.Tests.World.{env, bundle_disk, held}
use vibe_kata.Tests.Fixtures.{b_encodes, flushes}
use vibe_kata.Tests.History.{Ids, encodes, apart, none_stored}

abbrev calls : List Call
calls =
    saves (held created (pos 0))
    ∷ loads (bytes "c")
    ∷ loads (bytes "d")
    ∷ deletes (bytes "c")
    ∷ loads (bytes "c")
    ∷ []

abbrev replies : List Answer
replies = done ∷ found (some (held created (pos 0))) ∷ found none ∷ done ∷ found none ∷ []

abbrev nothing : Stored
nothing j = none

performed : (perform_all disk_files json_values env calls bundle_disk).0 ≡ some replies
unfolding State.save State.load State.delete parse_state json_to_container string_member
    integer_member string_to_state string_to_mode to_int32 ensure_container_dir make_container_dir
    mkdir_p mkdir_parents mkdir_loop mkdir_or_exists strip_slash get_state_dir get_container_dir
    get_container_state_path write_state dump_to disk_files json_values state_to_json
    state_to_string mode_to_string str_eq
performed = refl

perform_all-answers_example :
    (replies ≡ (answers env calls nothing).0)
    × Agrees disk_files json_values env Ids
        (answers env calls nothing).1
        (perform_all disk_files json_values env calls bundle_disk).1
perform_all-answers_example =
    perform_all-answers env disk_files-IsLawful json_values-IsLawful Ids encodes apart calls nothing
      bundle_disk {replies = replies}
      (
        record {
          id = bytes "c";
          named = refl;
          known = inl refl;
          full = ground arith;
          valid = ground arith;
          fits = omega arith;
          encodes = b_encodes;
        },
        (inl refl, (inr refl, (inl refl, (inl refl, tt)))),
      )
      none_stored (flushes (held created (pos 0)) bundle_disk, (refl, (refl, (refl, (refl, tt)))))
      performed
