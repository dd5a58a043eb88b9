-- ===== src/Container/Namespaces/Flags.antt =====
-- Which flags `nk_namespace_get_clone_flags` sets, and the room that their names take.
use Prim.Native.Nat.{max, bit_or}
use vibe_kata.Base.{
  ℕ, ◌+◌, ◌≤◌, ◌<◌, ◌≡◌, refl, Bool, true, false, Option, none, some, is_some, not, ◌||◌, ◌&&◌,
  List, [], ◌∷◌, arith, length, length-append, ◌==◌, Bool-cases, inl, inr, if◌then◌else◌,
}
use vibe_kata.Base.Bytes.{CString}
use vibe_kata.Base.Bits.{bit, has_flag, bit-bit_or, bit-zero, has_flag-two_pow, bit-lt-two}
use vibe_kata.Container.Namespaces.{
  NamespaceType, pid, network, ipc, uts, mount, user, cgroup, NamespaceConfig, ns_map, is_new,
  add_clone_flags, append_if, get_clone_flags, flags_to_string,
}

-- The exponent of the flag.
abbrev place : NamespaceType → ℕ
place pid = 29
place network = 30
place ipc = 27
place uts = 26
place mount = 17
place user = 28
place cgroup = 25

abbrev pub same_type : NamespaceType → NamespaceType → Bool
same_type s t = place s == place t

has_flag-ns_map : (t : NamespaceType) (x : ℕ) → has_flag x (ns_map t) ≡ (bit (place t) x == 1)
unfolding ns_map
has_flag-ns_map pid x = has_flag-two_pow 29 x
has_flag-ns_map network x = has_flag-two_pow 30 x
has_flag-ns_map ipc x = has_flag-two_pow 27 x
has_flag-ns_map uts x = has_flag-two_pow 26 x
has_flag-ns_map mount x = has_flag-two_pow 17 x
has_flag-ns_map user x = has_flag-two_pow 28 x
has_flag-ns_map cgroup x = has_flag-two_pow 25 x

-- A namespace that is enabled and has no path is created, with its own type.
abbrev creates_type : NamespaceType → Bool → Option CString → NamespaceType → Bool
creates_type t true none s = same_type s t
creates_type t _ _ s = false

creates_type_lem :
    (t : NamespaceType) (ns : NamespaceConfig)
    → creates_type t ns.enable ns.path ns.type ≡ (is_new ns && same_type ns.type t)
creates_type_lem t ns = lemma ns.enable ns.path
  where
    lemma :
        (b : Bool) (p : Option CString)
        → creates_type t b p ns.type
          ≡ ((if b then not (is_some p) else false) && same_type ns.type t)
    lemma true none = refl
    lemma true (some _) = refl
    lemma false none = refl
    lemma false (some _) = refl

-- Some namespace of the configuration is of the type, enabled, and to be created rather than joined.
abbrev pub asks_for : NamespaceType → List NamespaceConfig → Bool
asks_for t [] = false
asks_for t (ns ∷ rest) = creates_type t ns.enable ns.path ns.type || asks_for t rest

bit-ns_map : (s t : NamespaceType) → bit (place t) (ns_map s) ≡ (if same_type s t then 1 else 0)
unfolding bit ns_map
bit-ns_map pid pid = refl
bit-ns_map network pid = refl
bit-ns_map ipc pid = refl
bit-ns_map uts pid = refl
bit-ns_map mount pid = refl
bit-ns_map user pid = refl
bit-ns_map cgroup pid = refl
bit-ns_map _ _ = refl

bit-add_clone_flags :
    (t : NamespaceType) (flags : ℕ) (nss : List NamespaceConfig)
    → bit (place t) (add_clone_flags flags nss)
      ≡ max (bit (place t) flags) (if asks_for t nss then 1 else 0)
unfolding add_clone_flags
bit-add_clone_flags t flags [] = omega arith
bit-add_clone_flags t flags (ns ∷ rest) =
    let k = place t in
    elim (Bool-cases (is_new ns)) [
      | inl new ↦ rw new (
          ground (
            arith,
            bit-add_clone_flags t (bit_or flags (ns_map ns.type)) rest,
            bit-bit_or k flags (ns_map ns.type),
            bit-ns_map ns.type t,
            bit-lt-two k flags,
            creates_type_lem t ns,
          ))
      | inr old ↦
          rw old (ground (arith, bit-add_clone_flags t flags rest, creates_type_lem t ns, old))
    ]

-- The flag of a namespace type is set in the flags for `clone` exactly when the configuration has
-- an enabled namespace of that type without a path.
pub has_flag-get_clone_flags :
    (t : NamespaceType) (nss : List NamespaceConfig)
    → has_flag (get_clone_flags nss) (ns_map t) ≡ asks_for t nss
unfolding get_clone_flags
has_flag-get_clone_flags t nss =
    rw has_flag-ns_map (ground (arith, bit-add_clone_flags t 0 nss, bit-zero (place t)))

length-append_if :
    (flags mask : ℕ) (name buf : CString)
    → length (append_if flags mask name buf) ≤ length buf + length name
unfolding append_if
length-append_if flags mask name buf = ground (arith, length-append buf name)

-- The text of any flags, with its terminating NUL, fits the buffer of 256 bytes.
pub flags_to_string_fits : (flags : ℕ) → length (flags_to_string flags) < 256
unfolding flags_to_string
flags_to_string_fits flags = omega (arith, length-append_if)
