-- ===== src/State/Map.antt =====
-- The state files as a map from ids to containers: the calls of src/common/state.c, in any order, answer
-- as the map does.
use vibe_kata.Base.{
  ◌≡◌, ◌≢◌, sym, ◌∙◌, subst, Bool, true, false, Bool-cases, Option, none, some, Option-cases, List,
  [], ◌∷◌, All, inl, inr, arith, is_some, if◌then◌else◌,
}
use vibe_kata.Base.Int.{negsuc, IsInt32}
use vibe_kata.Base.Bytes.{CString, str_eq, str_eq_iff}
use vibe_kata.Effects.{M, pure, ◌>>=◌, ◌>>◌}
use vibe_kata.Effects.Keeps.{bind_eq_some}
use vibe_kata.Files
use vibe_kata.Files.{Files}
use vibe_kata.Jansson
use vibe_kata.Jansson.{Jansson}
use vibe_kata.Types.{invalid, Container}
use vibe_kata.State.Dir.{Env}
use vibe_kata.State.RoundTrip.{load-save}
use vibe_kata.State.Frame.{load-save_ne, load-delete, load-delete_ne}
use vibe_kata.State.Saved.{save_flushes}
use vibe_kata.State.Store.{get_container_state_path, text_or_empty, save, load, delete}

-- One call, and what it answers.
pub data Call : Type 0 where
  saves : Container → Call
  loads deletes : CString → Call

pub data Answer : Type 0 where
  done : Answer
  found : Option Container → Answer

-- What the map holds: the containers by their ids.
abbrev pub Stored : Type 0
Stored = CString → Option Container

abbrev pub update : CString → Option Container → Stored → Stored
update i o m = λ j. if str_eq i j then o else m j

module _ (env : Env) where
  -- The form in which a container comes back.
  abbrev pub stored_form : CString → Container → Container
  stored_form i c = record c {
    state_file = some (get_container_state_path env i);
    control_fd = negsuc 0;
  }

  -- A container without an id is not stored.
  abbrev pub stored_as : Option CString → Container → Stored → Stored
  stored_as none c m = m
  stored_as (some i) c m = update i (some (stored_form i c)) m

  -- The specification of a call.
  abbrev pub answer : Call → Stored → Answer × Stored
  answer (saves c) m = (done, stored_as c.id c m)
  answer (loads i) m = (found (m i), m)
  answer (deletes i) m = (done, update i none m)

  abbrev pub answers : List Call → Stored → List Answer × Stored
  answers [] m = ([], m)
  answers (call ∷ rest) m =
      let (a, m1) = answer call m in let (replies, m2) = answers rest m1 in (a ∷ replies, m2)

module _ {W J T : Type 0} (fs : Files W T) (js : Jansson J T) (env : Env) where
  -- The calls on the state files, up to the first that fails.
  abbrev pub perform : Call → M W Answer
  perform (saves c) = save fs js env c >> pure done
  perform (loads i) = λ w. (some (found (load fs js env i w)), w)
  perform (deletes i) = delete fs env i >> pure done

  abbrev pub perform_all : List Call → M W (List Answer)
  perform_all [] = pure []
  perform_all (call ∷ rest) = do a ← perform call; replies ← perform_all rest; pure (a ∷ replies)

  -- What the stores among the calls have buffered is written.
  abbrev pub call_flushes : Call → W → Bool
  call_flushes (saves c) w = save_flushes fs js env c w
  call_flushes (loads i) w = true
  call_flushes (deletes i) w = true

  abbrev pub AllFlushed : List Call → W → Type 0
  AllFlushed [] w = Unit
  AllFlushed (call ∷ rest) w = (call_flushes call w ≡ true) × AllFlushed rest (perform call w).1

  -- The map holds what `nk_state_load` returns for the ids.
  abbrev pub Agrees : (CString → Type 0) → Stored → W → Type 0
  Agrees Ids m w = (j : CString) → Ids j → load fs js env j w ≡ m j

module _ {J T : Type 0} (js : Jansson J T) (Ids : CString → Type 0) where
  -- A container that can be stored: it has one of the ids, texts in UTF-8, and no value that is lost.
  pub record IsStorable (c : Container) : Type 0 where
    pub id : CString
    pub named : c.id ≡ some id
    pub known : Ids id
    pub full : c.bundle_path ≢ some []
    pub valid : c.state ≢ invalid
    pub fits : IsInt32 c.init_pid
    pub encodes : is_some (js.string (text_or_empty c.bundle_path)) ≡ true

  abbrev pub IsAdmissible : Call → Type 0
  IsAdmissible (saves c) = IsStorable c
  IsAdmissible (loads i) = Ids i
  IsAdmissible (deletes i) = Ids i

then_done :
    {W : Type 0} (m : M W (Unit {0})) (w : W) {a : Answer}
    → ((m >> pure done) w).0 ≡ some a
    → ((m w).0 ≡ some tt) × (a ≡ done) × (((m >> pure done) w).1 ≡ (m w).1)
then_done m w {a} h = elim (Option-cases (m w).0) [
  | inl failed ↦ absurd (ground (arith, failed))
  | inr (tt, made) ↦ (made, ground (arith, made), ground (arith, made))
]

module _ {W J T : Type 0} {fs : Files W T} {js : Jansson J T} (env : Env)
    {same : CString → CString → Bool} (F : Files.IsLawful fs same) (L : Jansson.IsLawful js)
    (Ids : CString → Type 0) (encodes : (i : CString) → Ids i → is_some (js.string i) ≡ true)
    (apart : (i j : CString)
      → Ids i
      → Ids j
      → str_eq i j ≡ false
      → same (get_container_state_path env i) (get_container_state_path env j) ≡ false) where
  -- A world in which `i` is loaded as `o`, and the other ids as before, agrees with the update.
  Agrees-update :
      (i : CString) (o : Option Container) (m : Stored) (w w' : W)
      → Agrees fs js env Ids m w
      → load fs js env i w' ≡ o
      → ((j : CString) → Ids j → str_eq i j ≡ false → load fs js env j w' ≡ load fs js env j w)
      → Agrees fs js env Ids (update i o m) w'
  Agrees-update i o m w w' agrees here there j known = elim (Bool-cases (str_eq i j)) [
    | inl alike ↦ rw alike (subst (λ x. load fs js env x w' ≡ o) ((str_eq_iff i j).0 alike) here)
    | inr differ ↦ rw differ (there j known differ ∙ agrees j known)
  ]

  perform-Agrees :
      (call : Call) (m : Stored) (w : W) {a : Answer}
      → IsAdmissible js Ids call
      → Agrees fs js env Ids m w
      → call_flushes fs js env call w ≡ true
      → (perform fs js env call w).0 ≡ some a
      → (a ≡ (answer env call m).0)
        × Agrees fs js env Ids (answer env call m).1 (perform fs js env call w).1
  perform-Agrees (saves c) m w {a} ok agrees flushed h =
      let (saved, same_answer, same_world) = then_done (save fs js env c) w {a = a} h in
      let i = ok.id in
      let after =
        Agrees-update i (some (stored_form env i c)) m w (save fs js env c w).1 agrees
          (load-save env F L c i w (saved, flushed) ok.named ok.full ok.valid ok.fits
            (encodes i ok.known) ok.encodes)
          (λ j known differ.
            load-save_ne js env F c i j w ok.named (apart i j ok.known known differ)) in
      (
        same_answer,
        subst (λ v. Agrees fs js env Ids (stored_as env c.id c m) v) (sym same_world)
            (subst (λ o. Agrees fs js env Ids (stored_as env o c m) (save fs js env c w).1)
              (sym ok.named) after),
      )
  perform-Agrees (loads i) m w {a} known agrees _ h = (ground (arith, agrees i known), agrees)
  perform-Agrees (deletes i) m w {a} known agrees _ h =
      let (deleted, same_answer, same_world) = then_done (delete fs env i) w {a = a} h in
      let after =
        Agrees-update i none m w (delete fs env i w).1 agrees (load-delete js env F i w deleted).0
          (λ j other differ. load-delete_ne js env F i j w (apart i j known other differ)) in
      (same_answer, subst (λ v. Agrees fs js env Ids (update i none m) v) (sym same_world) after)

  -- A sequence of calls of `nk_state_save`, `nk_state_load` and `nk_state_delete` of which none
  -- fails, and in which each `fclose` writes what is buffered, answers as a finite map from ids to
  -- containers does, and what is loaded afterwards for each id is what the map then holds. This is
  -- for a world that holds what the map holds at the start, for ids that are valid UTF-8 and whose
  -- state files are different files, and for containers with such an id whose bundle path is not
  -- empty and is valid UTF-8, whose state has a name, and whose process id has 32 bits.
  pub perform_all-answers :
      (calls : List Call) (m : Stored) (w : W) {replies : List Answer}
      → All (IsAdmissible js Ids) calls
      → Agrees fs js env Ids m w
      → AllFlushed fs js env calls w
      → (perform_all fs js env calls w).0 ≡ some replies
      → (replies ≡ (answers env calls m).0)
        × Agrees fs js env Ids (answers env calls m).1 (perform_all fs js env calls w).1
  perform_all-answers [] m w {replies} ok agrees _ h = (ground (arith, h), agrees)
  perform_all-answers (call ∷ rest) m w {replies} ok agrees flushed h =
      let (a, made, whole) =
        bind_eq_some (perform fs js env call)
          (λ a. perform_all fs js env rest >>= λ replies. pure (a ∷ replies)) w h in
      let w1 = (perform fs js env call w).1 in
      let (same_answer, agrees1) = perform-Agrees call m w {a = a} ok.0 agrees flushed.0 made in
      let (bs, made1, whole1) =
        bind_eq_some (perform_all fs js env rest) (λ bs. pure (a ∷ bs)) w1 (rw whole at h) in
      let (same_answers, agrees2) =
        perform_all-answers rest (answer env call m).1 w1 {replies = bs} ok.1 agrees1 flushed.1
          made1 in
      let last : some (a ∷ bs) ≡ some replies = rw (whole, whole1) at h in
      rw (whole, whole1) (ground (arith, last, same_answer, same_answers), agrees2)
