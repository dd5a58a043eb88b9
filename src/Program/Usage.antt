-- ===== src/Program/Usage.antt =====
-- `print_usage` and `print_version` (src/main.c): the messages, one after the other.
use vibe_kata.Base.{List, [], ◌∷◌, ◌++◌}
use vibe_kata.Base.Bytes.{CString, bytes}

unfoldable pub usage : CString → List CString
usage prog_name =
    (bytes "Usage: " ++ (prog_name ++ bytes " <command> [options]\n\n"))
    ∷ bytes "Commands:\n"
    ∷ bytes "  create [options] <container-id>  Create a new container\n"
    ∷ bytes "  start [options] <container-id>    Start an existing container\n"
    ∷ bytes "  run [options] <container-id>      Create + start (Docker-style)\n"
    ∷ bytes "  exec [options] <container-id>     Run a command in a running container\n"
    ∷ bytes "  delete <container-id>             Delete a container\n"
    ∷ bytes "  state <container-id>              Query container state\n\n"
    ∷ bytes "Options:\n"
    ∷ bytes "  -b, --bundle=<path>    Path to container bundle directory (default: .)\n"
    ∷ bytes "                         Bundle must contain: config.json and rootfs/\n"
    ∷ bytes "  -r, --runtime=<mode>   Execution mode: container|vm (default: container)\n"
    ∷ bytes "  -p, --pid-file=<file>  File to write container PID\n"
    ∷ bytes "  -a, --attach           Attach: wait for container process (start/run)\n"
    ∷ bytes "  -d, --detach           Detached mode: return after start (start/run)\n"
    ∷ bytes "  -x, --exec=<command>   Command for exec (default: interactive /bin/sh)\n"
    ∷ bytes "      --rm               Remove container when attached run exits\n"
    ∷ bytes "  -V, --verbose          Enable verbose logging\n"
    ∷ bytes "  -q, --quiet            Disable all logging\n"
    ∷ bytes "      --log-level=<lvl>  Set log level: debug|info|warn|error\n"
    ∷ bytes "  -E, --educational      Enable educational mode (explains operations)\n"
    ∷ bytes "  -h, --help            Show this help message\n"
    ∷ bytes "  -v, --version         Show version information\n"
    ∷ bytes "\n"
    ∷ bytes "Behavior:\n"
    ∷ bytes "  start (default)       Detached, like 'docker start'\n"
    ∷ bytes "  run (default)         Attached, like 'docker run'\n"
    ∷ bytes "  run -d                Detached create+start, like 'docker run -d'\n"
    ∷ bytes "  exec                  Enter running container namespaces with nsenter\n"
    ∷ bytes "  exec -x '<cmd>'       Run one command inside running container\n"
    ∷ bytes
        "  shell as PID 1        Exit-prone: if process args are /bin/sh, exit stops container\n"
    ∷ bytes "  keepalive/app PID 1   Preferred: container stays running for exec sessions\n"
    ∷ bytes "\n"
    ∷ bytes "Examples:\n"
    ∷ (bytes "  "
        ++ (prog_name
            ++ bytes " create --bundle=/usr/local/share/nano-sandbox/bundle my-container\n"))
    ∷ (bytes "  " ++ (prog_name ++ bytes " start my-container\n"))
    ∷ (bytes "  " ++ (prog_name ++ bytes " start -a my-container\n"))
    ∷ (bytes "  "
        ++ (prog_name ++ bytes " run --bundle=/usr/local/share/nano-sandbox/bundle my-container\n"))
    ∷ (bytes "  "
        ++ (prog_name
            ++ bytes " run -d --bundle=/usr/local/share/nano-sandbox/bundle my-container\n"))
    ∷ (bytes "  " ++ (prog_name ++ bytes " exec my-container\n"))
    ∷ (bytes "  " ++ (prog_name ++ bytes " exec -x 'ps -ef' my-container\n"))
    ∷ bytes "  # Exit-prone only when bundle process is an interactive shell (/bin/sh)\n"
    ∷ (bytes "  " ++ (prog_name ++ bytes " delete my-container\n"))
    ∷ bytes "\n"
    ∷ bytes "Setup test bundle:\n"
    ∷ bytes "  ./scripts/setup-rootfs.sh\n"
    ∷ []

unfoldable pub version : List CString
version =
    bytes "nano-sandbox version 0.1.0"
    ∷ bytes "Educational OCI Container Runtime with VM Isolation"
    ∷ []
