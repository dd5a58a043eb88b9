-- ===== src/Container/Namespaces/Joined.antt =====
-- Which namespaces `nk_container_setup_namespaces` joins.
use vibe_kata.Base.{
  ℕ, ◌≡◌, refl, ◌∙◌, none, some, List, [], ◌∷◌, take, Option-cases, inl, inr, arith,
}
use vibe_kata.Base.Bytes.{CString}
use vibe_kata.Effects.{◌>>◌}
use vibe_kata.Effects.Keeps.{then_eq_some}
use vibe_kata.Container.Kernel.{Kernel}
use vibe_kata.Container.Context.{Context}
use vibe_kata.Container.Process.{namespaces_of}
use vibe_kata.Container.Namespaces.{
  NamespaceType, pid, network, ipc, uts, mount, user, cgroup, NamespaceConfig, ns_map,
}
use vibe_kata.Container.Namespaces.Join.{namespace_join, join_all, setup_namespaces}

-- The CLONE_* constants of <sched.h>
abbrev pub flag_of : NamespaceType → ℕ
flag_of pid = 0x20000000
flag_of network = 0x40000000
flag_of ipc = 0x08000000
flag_of uts = 0x04000000
flag_of mount = 0x00020000
flag_of user = 0x10000000
flag_of cgroup = 0x02000000

flag_of_lem : (t : NamespaceType) → flag_of t ≡ ns_map t
unfolding ns_map
flag_of_lem pid = refl
flag_of_lem network = refl
flag_of_lem ipc = refl
flag_of_lem uts = refl
flag_of_lem mount = refl
flag_of_lem user = refl
flag_of_lem cgroup = refl

module _ {W : Type 0} (k : Kernel W) where
  -- From one state to the other, the file of the namespace is opened, `setns` takes its descriptor,
  -- and the descriptor is closed.
  abbrev pub Joined : NamespaceType → CString → W → W → Type 0
  Joined type path w w' =
      (fd : ℕ) × ((k.open_read path w).0 ≡ some fd)
      × ((k.setns fd (flag_of type) (k.open_read path w).1).0 ≡ none)
      × (w' ≡ k.close fd (k.setns fd (flag_of type) (k.open_read path w).1).1)

  -- From one state to the other, the namespaces that have a path are joined, one after the other.
  pub data AllJoined : List NamespaceConfig → W → W → Type 0 where
    no_more : {w : W} → AllJoined [] w w
    no_path :
        {ns : NamespaceConfig} {rest : List NamespaceConfig} {w w' : W}
        → ns.path ≡ none
        → AllJoined rest w w'
        → AllJoined (ns ∷ rest) w w'
    has_path :
        {ns : NamespaceConfig} {rest : List NamespaceConfig} {path : CString} {w v w' : W}
        → ns.path ≡ some path
        → Joined ns.type path w v
        → AllJoined rest v w'
        → AllJoined (ns ∷ rest) w w'

  namespace_join-Joined :
      (type : NamespaceType) (path : CString) (w : W)
      → (namespace_join k type path w).0 ≡ some tt
      → Joined type path w (namespace_join k type path w).1
  unfolding namespace_join ns_map
  namespace_join-Joined type path w h =
      rw (flag_of_lem type) (elim (Option-cases (k.open_read path w).0) [
        | inl failed ↦ absurd (ground (arith, failed))
        | inr (fd, opened) ↦
            elim (Option-cases (k.setns fd (ns_map type) (k.open_read path w).1).0) [
              | inl joined ↦ (fd, opened, joined, ground (arith, opened, joined))
              | inr (_, failed) ↦ absurd (ground (arith, opened, failed))
            ]
      ])

  join_all-AllJoined :
      (nss : List NamespaceConfig) (w : W)
      → (join_all k nss w).0 ≡ some tt
      → AllJoined nss w (join_all k nss w).1
  unfolding join_all
  join_all-AllJoined [] w h = no_more
  join_all-AllJoined (ns ∷ rest) w h = elim (Option-cases ns.path) [
    | inl e ↦
        let next : join_all k (ns ∷ rest) w ≡ join_all k rest w = ground (arith, e) in
        rw next (no_path e (join_all-AllJoined rest w (rw next at h)))
    | inr (path, e) ↦
        let join = namespace_join k ns.type path in
        let next : join_all k (ns ∷ rest) w ≡ (join >> join_all k rest) w = ground (arith, e) in
        let (joined, last) = then_eq_some join (join_all k rest) w (rw next at h) in
        let both = next ∙ last in
        rw both (
          has_path e (namespace_join-Joined ns.type path w joined)
            (join_all-AllJoined rest _ (rw both at h)))
  ]

  -- Where `nk_container_setup_namespaces` returns 0, the state that it leaves is the one after
  -- joining, in their order, the namespaces of the context that have a path: for each of them, in
  -- the state that the one before has left, `open` gives a descriptor for the path, `setns` takes
  -- it with the CLONE flag of the namespace's type, and it is closed.
  pub setup_namespaces_joins :
      (ctx : Context) (w : W)
      → (setup_namespaces k ctx w).0 ≡ some tt
      → AllJoined (namespaces_of ctx) w (setup_namespaces k ctx w).1
  unfolding setup_namespaces namespaces_of
  setup_namespaces_joins ctx w h = elim (Option-cases ctx.namespaces) [
    | inl missing ↦ absurd (ground (arith, missing))
    | inr (nss, given) ↦
        rw given (join_all-AllJoined (take ctx.namespaces_len nss) w (ground (arith, given)))
  ]
