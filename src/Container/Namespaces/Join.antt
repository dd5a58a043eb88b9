-- ===== src/Container/Namespaces/Join.antt =====
-- src/container/namespaces.c: the host name, the joining of namespaces that are there, and the maps of a
-- user namespace. What the code prints is left out.
use vibe_kata.Base.{ℕ, none, some, List, [], ◌∷◌, ◌++◌, take, if◌then◌else◌}
use vibe_kata.Base.Int.{pos, to_int32}
use vibe_kata.Base.Bytes.{CString, bytes}
use vibe_kata.Base.Decimal.{decimal_int}
use vibe_kata.Effects.{M, pure, fail, ◌>>◌}
use vibe_kata.Container.Kernel.{Kernel}
use vibe_kata.Container.Context.{Context}
use vibe_kata.Container.Namespaces.{NamespaceType, NamespaceConfig, ns_map}

module _ {W : Type 0} (k : Kernel W) where
  unfoldable pub namespace_set_hostname : CString → M W (Unit {0})
  namespace_set_hostname hostname w =
      let (e, w1) = k.sethostname hostname w in
      elim e [ none ↦ (some tt, w1) | some _ ↦ (none, w1) ]

  unfoldable pub namespace_join : NamespaceType → CString → M W (Unit {0})
  unfolding ns_map
  namespace_join type path w =
      let (opened, w1) = k.open_read path w in
      elim opened [
        | none ↦ (none, w1)
        | some fd ↦
            let (e, w2) = k.setns fd (ns_map type) w1 in
            elim e [ none ↦ (some tt, k.close fd w2) | some _ ↦ (none, k.close fd w2) ]
      ]

  -- `dprintf(fd, "0 %d 1\n", id)`, on a file that is opened for it and closed
  unfoldable pub write_map : CString → ℕ → M W (Unit {0})
  write_map path id w =
      let (opened, w1) = k.open_fd path w in
      elim opened [
        | none ↦ (none, w1)
        | some fd ↦
            let line = bytes "0 " ++ (decimal_int (to_int32 (pos id)) ++ bytes " 1\n") in
            let (written, w2) = k.write fd line w1 in
            (if written then some tt else none, k.close fd w2)
      ]

  unfoldable pub deny_setgroups : W → W
  deny_setgroups w =
      let (opened, w1) = k.open_fd (bytes "/proc/self/setgroups") w in
      elim opened [ none ↦ w1 | some fd ↦ k.close fd (k.write fd (bytes "deny") w1).1 ]

  unfoldable pub namespace_setup_user : ℕ → ℕ → M W (Unit {0})
  unfolding write_map deny_setgroups
  namespace_setup_user uid gid = do
    write_map (bytes "/proc/self/uid_map") uid
    write_map (bytes "/proc/self/gid_map") gid
    λ w. (some tt, deny_setgroups w)

  -- The loop of `nk_container_setup_namespaces`, over the first `namespaces_len` elements.
  unfoldable pub join_all : List NamespaceConfig → M W (Unit {0})
  unfolding namespace_join
  join_all [] = pure tt
  join_all (ns ∷ rest) = elim ns.path [
    | none ↦ join_all rest
    | some path ↦ namespace_join ns.type path >> join_all rest
  ]

  unfoldable pub setup_namespaces : Context → M W (Unit {0})
  unfolding join_all
  setup_namespaces ctx = elim ctx.namespaces [
    | none ↦ fail
    | some nss ↦ join_all (take ctx.namespaces_len nss)
  ]
