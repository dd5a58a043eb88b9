-- ===== src/Log/Notes.antt =====
-- src/common/log.c: the educational notes, and which of them `nk_log_explain_at` prints.
use vibe_kata.Base.{
  ℕ, Bool, true, false, Option, none, some, List, [], ◌∷◌, ◌==◌, ◌||◌, ◌&&◌, if◌then◌else◌,
}
use vibe_kata.Base.Bytes.{CString, bytes}
use vibe_kata.State.{Env}
use vibe_kata.Log.{LogConfig, log_explain_at}
use vibe_kata.Log.Output.{explain_line}

pub record Note : Type 0 where
  pub operation : CString
  pub explanation : CString

unfoldable pub educational_notes : List Note
educational_notes =
    record {
      operation = bytes "Loading OCI spec";
      explanation =
          bytes
            "The OCI spec defines everything about the container: what to run, filesystem, namespaces, and resource limits";
    }
    ∷ record {
      operation = bytes "Validating OCI spec";
      explanation =
          bytes
            "Ensuring the config.json has all required fields like process args, root filesystem, and OCI version";
    }
    ∷ record {
      operation = bytes "Creating container state";
      explanation =
          bytes "Saving container metadata to disk so we can manage it later (start/stop/delete)";
    }
    ∷ record {
      operation = bytes "Parsing namespaces";
      explanation =
          bytes
            "Namespaces isolate container from host: PID namespace gives container its own PID 1";
    }
    ∷ record {
      operation = bytes "Setting up root filesystem";
      explanation =
          bytes
            "Container needs its own filesystem view. We'll mount /proc, /sys, /dev and use pivot_root";
    }
    ∷ record {
      operation = bytes "Creating cgroup";
      explanation =
          bytes
            "Cgroups limit container resources (CPU, memory, PIDs). Different from namespaces which isolate";
    }
    ∷ record {
      operation = bytes "Mounting proc";
      explanation =
          bytes
            "The /proc filesystem gives process info. Container's /proc shows only container's processes";
    }
    ∷ record {
      operation = bytes "Mounting sysfs";
      explanation =
          bytes
            "/sys exposes kernel info. Container gets limited view for hardware and kernel parameters";
    }
    ∷ record {
      operation = bytes "Mounting dev";
      explanation =
          bytes
            "Device nodes (/dev/null, /dev/zero, etc.) needed for most programs. Creating minimal set";
    }
    ∷ record {
      operation = bytes "Pivoting root";
      explanation =
          bytes
            "Atomic swap of root filesystem. pivot_root() is safer than chroot() for container isolation";
    }
    ∷ record {
      operation = bytes "Setting hostname";
      explanation =
          bytes "In UTS namespace, container can have its own hostname without affecting host";
    }
    ∷ record {
      operation = bytes "Dropping capabilities";
      explanation =
          bytes
            "Linux capabilities are fine-grained privileges. Container runs with reduced privileges even as root";
    }
    ∷ record {
      operation = bytes "Calling clone()";
      explanation =
          bytes
            "clone() system call creates new process WITH namespaces. Returns twice: parent gets PID, child gets 0";
    }
    ∷ record {
      operation = bytes "Executing container process";
      explanation =
          bytes
            "execve() replaces current process with container binary. PID stays same, memory is replaced";
    }
    ∷ []

abbrev pub is_prefix : CString → CString → Bool
is_prefix [] s = true
is_prefix (a ∷ p) [] = false
is_prefix (a ∷ p) (b ∷ s) = (a == b) && is_prefix p s

-- `strstr(s, p) != NULL`
abbrev pub contains : CString → CString → Bool
contains [] p = is_prefix p []
contains (b ∷ s) p = is_prefix p (b ∷ s) || contains s p

-- The loop over the notes, with its `break`.
unfoldable pub find_note : CString → List Note → Option CString
find_note what [] = none
find_note what (n ∷ rest) =
    let later = find_note what rest in
    if contains what n.operation then some n.explanation else later

unfoldable pub explanation_of : CString → Option CString → Option CString
unfolding find_note educational_notes
explanation_of what (some why) = some why
explanation_of what none = find_note what educational_notes

-- `nk_log_explain_at`
unfoldable pub print_explain_at :
    Env
    → Bool
    → Option CString
    → ℕ
    → CString
    → Option CString
    → LogConfig
    → Option CString × LogConfig
unfolding explanation_of explain_line log_explain_at
print_explain_at env tty file line what why l =
    let (educational, l') = log_explain_at env l in
    (
      if educational
          then (elim (explanation_of what why) [
            | none ↦ none
            | some explanation ↦ some (explain_line tty l'.role file line explanation)
          ])
          else none,
      l',
    )
