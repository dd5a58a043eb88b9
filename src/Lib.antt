-- ===== src/Lib.antt =====
-- nano-sandbox, a small OCI container runtime: its commands create, start, run, exec, delete and
-- state act on containers, each of which has a state file, a bundle with a specification
-- (config.json), and, while it runs, a process that clone has started in namespaces of its own.
--
-- How the parts interact: the commands (src/main.c) load and store containers through the state
-- files (src/common/state.c), read the specification of a bundle (src/oci/spec.c), make from it a
-- context (include/nk_container.h), and hand this to the container process
-- (src/container/process.c), which starts a child with the flags of the namespaces
-- (src/container/namespaces.c). The child sets up its root file system (src/container/mounts.c) and
-- tells the parent by a byte on a pipe.
--
-- The files and the code they model:
--
-- Base, Effects: helpers. A C string is the list of its bytes, a `char *` that may be NULL an
--   Option. An int of 32 bits is an integer ℤ with IsInt32, and to_int32 is the wrap-around of an
--   assignment to one. A function with effects on a world W that returns 0 or -1, or a pointer or
--   NULL, is a map W → Option A × W.
-- Types: include/nk.h.
-- Files, Files/Memory: the calls on the file system (stat, mkdir, rmdir, unlink, fopen, a write of
--   the whole contents, fclose), as an interface with laws, and a file system in memory that keeps
--   the laws.
-- Jansson, Jansson/Value: libjansson, as an interface with laws for what its documentation says,
--   and JSON values that keep them.
-- State: src/common/state.c. State/Names has state_to_string and its fellows, State/Dir
--   get_state_dir and mkdir_p (src/main.c has a copy of both; that of mkdir_p is the same text),
--   State/Store nk_state_save (save), nk_state_load (load), nk_state_delete (delete) and
--   nk_state_exists (exists). State/Map has the specification of the calls as a finite map
--   (answers), against their composition (perform_all). State/Saved says when what a store has
--   buffered is written, which is up to fclose, whose result the code does not look at.
--   State/Paths, State/RoundTrip, State/Frame and State/Loaded hold the other proofs.
-- Oci: src/oci/spec.c. Oci/Types has the structs of include/nk_oci.h, Oci/Parse the parsers of the
--   parts, Oci/Load nk_oci_spec_load and nk_oci_spec_validate, Oci/Annotation
--   nk_oci_spec_get_annotation, Oci/Free nk_oci_spec_free, as the list of the strings that it
--   frees. Oci/Arrays, Oci/Valid, Oci/Lookup and Oci/Freed hold the proofs.
-- Container/Kernel: the other system calls, as an interface. Container/Namespaces,
--   Container/Mounts, Container/Cgroups and Container/Process: the files of the same names in
--   src/container, with Container/Context for the context. Container/Mounts/Custom has
--   nk_container_mount_custom (mount_custom), Container/Namespaces/Join the joining of namespaces
--   and the maps of a user namespace, Container/Limits what a process gives up before it executes a
--   program. Container/Namespaces/Flags, Container/Namespaces/Joined, Container/Cgroups/Written,
--   Container/Mounts/Custom, Container/Mounts/Pivot and Container/Process/Handshake hold the
--   proofs.
-- Lifecycle: the commands of src/main.c. Lifecycle/Defs has nk_container_create (create) and
--   nk_container_state, Lifecycle/Context the context that a start builds, Lifecycle/Start
--   nk_container_start (start), Lifecycle/Running nk_container_run, nk_container_resume and
--   nk_container_delete, Lifecycle/Main the dispatch of main, Lifecycle/StateDir its choice of the
--   state directory, Lifecycle/Summary the messages of log_oci_start_summary. Lifecycle/Created,
--   Lifecycle/Checked, Lifecycle/Started, Lifecycle/Ended, Lifecycle/Frame, Lifecycle/Others,
--   Lifecycle/Asked, Lifecycle/Pid, Lifecycle/Again, Lifecycle/Typed, Lifecycle/Returns,
--   Lifecycle/Exits, Lifecycle/SameDir and Lifecycle/CommandText hold the proofs.
-- The life cycle as a state machine: Lifecycle/Change is the specification, the changes (Change)
--   that may happen to what is stored for a container, and sequences of them (Life).
--   Lifecycle/Steps has a command as a step (Step) from a world to the next, and the worlds that
--   commands on many containers lead to (Reach). Lifecycle/Refines, Lifecycle/Cases and
--   Lifecycle/Implements show the steps to be changes, Lifecycle/Apart what a step leaves of the
--   other containers, Lifecycle/History what follows for every sequence of commands,
--   Lifecycle/Composed how nk_container_run is one, and Lifecycle/Machine how every command of main
--   is.
-- Program: main of src/main.c as a whole, from the arguments to the exit code. Program/Usage has
--   print_usage and print_version, Program/Whole the proofs. Lifecycle/Release has
--   nk_container_free, which closes nothing for the containers of the commands, so that they leave
--   it out.
-- Resources: the books (Books) of what the commands do with the kernel: the descriptors of pipes,
--   control files and namespaces that are open, those that were used while they were not open, and
--   the process ids that were signalled though they are 0 or below or are not the program's own
--   (own). KeepsBooks says which call changes the books and how; Resources/Audit makes from any
--   files and any kernel ones that keep them. Resources/State, Resources/Mounts,
--   Resources/Namespaces, Resources/Child, Resources/Process, Resources/Commands and Resources/Main
--   follow the books through the parts.
-- Args: nk_parse_args of src/main.c, with getopt_long as a parameter. Args/Consistent holds the
--   proofs.
-- Log: the configuration of src/common/log.c. Log/Output has the lines that it prints, Log/Notes
--   the educational notes. Log/Configured, Log/Plain and Log/Colors hold the proofs.
-- Tests: the concrete inputs, and the theorems at these inputs.
--
-- Loops are structural recursion on the list they go over, and no fuel bounds a result, but for the
-- digits of a number: Base/Decimal gives decimal the fuel n + 1 for the number n, and shows that
-- the digits are those of n. The buffers of 4096 bytes keep their size: snprintf cuts its text to
-- it, and mkdir_p refuses a longer path.
--
-- What a call may do beyond its laws is left open: the laws of Files say of a directory, a file or
-- a removal only what the code relies on, with the paths that may name the same file as a
-- parameter, and the files that are written taken for regular ones; NoDanglingLinks, which one
-- theorem on mkdir_p asks for, says that what mkdir finds at a path is no link to a missing file;
-- PipesDeliver, PidsFit and Undisturbed say what is asked of pipe, clone and the other calls of the
-- kernel. Commands run one after the other: two programs at work at the same time are not modelled.
-- Where the code reads through a NULL pointer, the model has an outcome of its own (crashed, or
-- none in the function of the context).
--
-- Not modelled: memory, which is assumed never to run out, and its release, but for the strings of
-- a specification; the single messages of the functions, whose printing has no effect on the world
-- here; the fields of the structs that nothing sets or reads; the dropping of capabilities with
-- libcap-ng, for which the build has a switch; the VM mode, which has only declarations
-- (include/nk_vm.h); scripts, build rules and documents.
pub mod Base
pub mod Types
pub mod Effects
pub mod Files
pub mod Jansson
pub mod State
pub mod Oci
pub mod Container
pub mod Lifecycle
pub mod Log
pub mod Args
pub mod Resources
pub mod Program
pub mod Tests
