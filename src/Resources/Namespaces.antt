-- ===== src/Resources/Namespaces.antt =====
-- src/container/namespaces.c: what is opened to join a namespace, or to write a map, is closed again.

use vibe_kata.Base.{Bool, take, ℕ, ◌≡◌, refl, List, [], ◌∷◌, ◌++◌, Option-cases, inl, inr, arith}
use vibe_kata.Base.Int.{ℤ, pos, to_int32}
use vibe_kata.Base.Decimal.{decimal_int}
use vibe_kata.Base.Bytes.{CString, bytes}
use vibe_kata.Files.{Files}
use vibe_kata.Container.Kernel.{Kernel}
use vibe_kata.Container.Context.{Context}
use vibe_kata.Container.Namespaces.{NamespaceType, ns_map, NamespaceConfig}
use vibe_kata.Container.Namespaces.Join.{
  namespace_join, join_all, setup_namespaces, write_map, deny_setgroups, namespace_setup_user,
}
use vibe_kata.Resources.{Books, KeepsBooks}
use vibe_kata.Resources.Process.{books_written, used-opened, closed-opened}

module _ {W T : Type 0} {fs : Files W T} {k : Kernel W} {own : ℤ → Bool} {books : W → Books}
    (B : KeepsBooks own fs k books) where
  pub books-namespace_join :
      (type : NamespaceType) (path : CString) (w : W)
      → books (namespace_join k type path w).1 ≡ books w
  unfolding namespace_join
  books-namespace_join type path w = elim (Option-cases (k.open_read path w).0) [
    | inl e ↦ ground (arith, e, B.books-open_read path w)
    | inr (fd, e) ↦
        let w1 = (k.open_read path w).1 in
        let w2 = (k.setns fd (ns_map type) w1).1 in
        ground (
          arith,
          e,
          B.books-open_read path w,
          B.books-setns fd (ns_map type) w1,
          B.books-close fd w2,
          closed-opened fd (books w),
          used-opened fd (books w),
        )
  ]

  books-join_all : (nss : List NamespaceConfig) (w : W) → books (join_all k nss w).1 ≡ books w
  unfolding join_all
  books-join_all [] w = refl
  books-join_all (ns ∷ rest) w = elim (Option-cases ns.path) [
    | inl e ↦ ground (arith, e, books-join_all rest w)
    | inr (path, e) ↦ ground (
      arith,
      e,
      books-namespace_join ns.type path w,
      books-join_all rest (namespace_join k ns.type path w).1,
    )
  ]

  -- The file of each namespace is closed again, whether it is joined or not.
  pub books-setup_namespaces :
      (ctx : Context) (w : W) → books (setup_namespaces k ctx w).1 ≡ books w
  unfolding setup_namespaces
  books-setup_namespaces ctx w = elim (Option-cases ctx.namespaces) [
    | inl e ↦ ground (arith, e)
    | inr (nss, e) ↦ rw e (books-join_all (take ctx.namespaces_len nss) w)
  ]

  books-write_map : (path : CString) (id : ℕ) (w : W) → books (write_map k path id w).1 ≡ books w
  unfolding write_map
  books-write_map path id w =
      let line = bytes "0 " ++ (decimal_int (to_int32 (pos id)) ++ bytes " 1\n") in
      elim (Option-cases (k.open_fd path w).0) [
        | inl e ↦ ground (arith, e, B.books-open_fd path w)
        | inr (fd, e) ↦ ground (arith, e, books_written B path line w e)
      ]

  books-deny_setgroups : (w : W) → books (deny_setgroups k w) ≡ books w
  unfolding deny_setgroups
  books-deny_setgroups w =
      let path = bytes "/proc/self/setgroups" in
      elim (Option-cases (k.open_fd path w).0) [
        | inl e ↦ ground (arith, e, B.books-open_fd path w)
        | inr (fd, e) ↦ ground (arith, e, books_written B path (bytes "deny") w e)
      ]

  pub books-namespace_setup_user :
      (uid gid : ℕ) (w : W) → books (namespace_setup_user k uid gid w).1 ≡ books w
  unfolding namespace_setup_user
  books-namespace_setup_user uid gid w =
      let uids = bytes "/proc/self/uid_map" in
      let gids = bytes "/proc/self/gid_map" in
      let w1 = (write_map k uids uid w).1 in
      ground (
        arith,
        books-write_map uids uid w,
        books-write_map gids gid w1,
        books-deny_setgroups (write_map k gids gid w1).1,
      )
