-- ===== src/Container/Mounts/Custom.antt =====
-- `nk_container_mount_custom` (src/container/mounts.c): the mounts of a specification, and their flags.
use Prim.Native.Nat.{bit_or, max}
use vibe_kata.Base.{
  ℕ, ◌≡◌, Bool, false, Option, none, some, List, [], ◌∷◌, ◌++◌, ◌||◌, take, arith, if◌then◌else◌,
  ◌==◌,
}
use vibe_kata.Base.Bytes.{CString, bytes, snprintf, str_eq, str_eq_iff}
use vibe_kata.Base.Bits.{bit, has_flag, bit-bit_or, bit-zero, has_flag-two_pow, bit-lt-two}
use vibe_kata.Files.{Files}
use vibe_kata.State.{path_max}
use vibe_kata.Oci.{Mount}
use vibe_kata.Container.Kernel.{Kernel}
use vibe_kata.Container.Mounts.{ms_rdonly, ms_nosuid, ms_nodev, ms_noexec, ensure_target}

-- The flags of a custom mount, from its options (the loop of `nk_container_mount_custom`).
unfoldable pub option_flag : CString → ℕ
option_flag s =
    if str_eq s (bytes "ro")
    then ms_rdonly
    else if str_eq s (bytes "nosuid")
    then ms_nosuid
    else if str_eq s (bytes "noexec")
    then ms_noexec
    else if str_eq s (bytes "nodev")
    then ms_nodev
    else 0

unfoldable pub add_option_flags : ℕ → List CString → ℕ
unfolding option_flag
add_option_flags flags [] = flags
add_option_flags flags (s ∷ rest) = add_option_flags (bit_or flags (option_flag s)) rest

-- The options that the loop over `options_len` elements reads. A NULL among them is a crash, `none`.
unfoldable pub mount_options : List (Option CString) → Option (List CString)
mount_options [] = some []
mount_options (none ∷ rest) = none
mount_options (some s ∷ rest) = elim (mount_options rest) [ none ↦ none | some ss ↦ some (s ∷ ss) ]

abbrev shown : Option CString → CString
shown none = bytes "(null)"
shown (some s) = s

-- The flags of a mount; a NULL among its options is a crash, `none`.
unfoldable pub mount_flags : Mount → Option ℕ
unfolding mount_options add_option_flags
mount_flags m = elim m.options [
  | none ↦ some 0
  | some opts ↦ elim (mount_options (take m.options_len opts)) [
    | none ↦ none
    | some ss ↦ some (add_option_flags 0 ss)
  ]
]

module _ {W T : Type 0} (fs : Files W T) (k : Kernel W) where
  -- A round of the loop. A target that cannot be made is passed over, before the options are read; the
  -- result of the mount is only printed.
  unfoldable pub mount_one : CString → Mount → W → Option W
  unfolding mount_flags ensure_target
  mount_one rootfs m w =
      let target = snprintf path_max (rootfs ++ shown m.destination) in
      let (made, w1) = ensure_target fs k target w in
      elim made [
        | none ↦ some w1
        | some _ ↦ elim (mount_flags m) [
          | none ↦ none
          | some flags ↦ some (k.mount m.source target m.type flags none w1).1
        ]
      ]

  -- `nk_container_mount_custom`, which returns 0: the world it leaves, where it does not crash
  unfoldable pub mount_custom : List Mount → CString → W → Option W
  unfolding mount_one
  mount_custom [] rootfs w = some w
  mount_custom (m ∷ rest) rootfs w = elim (mount_one rootfs m w) [
    | none ↦ none
    | some w1 ↦ mount_custom rest rootfs w1
  ]

-- The options that set a flag, with their spelling and the exponent of the flag.
pub data FlagOption : Type 0 where
  ro nosuid nodev noexec : FlagOption

abbrev pub spelling : FlagOption → CString
spelling ro = bytes "ro"
spelling nosuid = bytes "nosuid"
spelling nodev = bytes "nodev"
spelling noexec = bytes "noexec"

-- MS_RDONLY, MS_NOSUID, MS_NODEV and MS_NOEXEC of <sys/mount.h>
abbrev pub mask : FlagOption → ℕ
mask ro = 1
mask nosuid = 2
mask nodev = 4
mask noexec = 8

abbrev exponent : FlagOption → ℕ
exponent ro = 0
exponent nosuid = 1
exponent nodev = 2
exponent noexec = 3

abbrev pub mentions : CString → List CString → Bool
mentions name [] = false
mentions name (s ∷ rest) = str_eq s name || mentions name rest

bit-option_flag :
    (o : FlagOption) (s : CString)
    → bit (exponent o) (option_flag s) ≡ (if str_eq s (spelling o) then 1 else 0)
unfolding option_flag bit
bit-option_flag o s = ground (
  arith,
  str_eq_iff s (bytes "ro"),
  str_eq_iff s (bytes "nosuid"),
  str_eq_iff s (bytes "noexec"),
  str_eq_iff s (bytes "nodev"),
)

bit-add_option_flags :
    (o : FlagOption) (flags : ℕ) (ss : List CString)
    → bit (exponent o) (add_option_flags flags ss)
      ≡ max (bit (exponent o) flags) (if mentions (spelling o) ss then 1 else 0)
unfolding add_option_flags
bit-add_option_flags o flags [] = omega arith
bit-add_option_flags o flags (s ∷ ss) = ground (
  arith,
  bit-add_option_flags o (bit_or flags (option_flag s)) ss,
  bit-bit_or (exponent o) flags (option_flag s),
  bit-option_flag o s,
  bit-lt-two (exponent o) flags,
)

has_flag-mask : (o : FlagOption) (x : ℕ) → has_flag x (mask o) ≡ (bit (exponent o) x == 1)
has_flag-mask ro x = has_flag-two_pow 0 x
has_flag-mask nosuid x = has_flag-two_pow 1 x
has_flag-mask nodev x = has_flag-two_pow 2 x
has_flag-mask noexec x = has_flag-two_pow 3 x

-- For each of the options ro, nosuid, nodev and noexec, the flag MS_RDONLY, MS_NOSUID, MS_NODEV or
-- MS_NOEXEC is set for a custom mount exactly when the option is among those of the mount.
pub has_flag-add_option_flags :
    (o : FlagOption) (ss : List CString)
    → has_flag (add_option_flags 0 ss) (mask o) ≡ mentions (spelling o) ss
has_flag-add_option_flags o ss =
    rw has_flag-mask (ground (arith, bit-add_option_flags o 0 ss, bit-zero (exponent o)))
