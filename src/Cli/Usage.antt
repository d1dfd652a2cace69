-- ===== src/Cli/Usage.antt =====
-- print_usage and print_version of src/cli_args.c: what is printed on stdout.
use tcp_client.Base.{Option, none, some, List, [], ◌∷◌, ◌++◌, Bytes, codes, joined}

-- The name of the program, where there is none or an empty one.
unfoldable pub name_of : Option Bytes → Bytes
name_of none = codes "./tcp-client"
name_of (some []) = codes "./tcp-client"
name_of (some (c ∷ rest)) = c ∷ rest

-- The lines below the two on the usage.
abbrev pub option_lines : List Bytes
option_lines =
    codes "  -h, --host <host>       Target server hostname or IP address\n"
    ∷ codes "  -p, --port <port>       Target server port (1-65535)\n"
    ∷ codes "  -t, --timeout <ms>      Connection/IO timeout in milliseconds (default: 5000)\n"
    ∷ codes
        "  -x, --hex <hex_string>  Send raw HEX payload string directly (e.g. \"00 06 30 30 30 30\")\n"
    ∷ codes "  -X, --hex-out           Display server response formatted in HEX\n"
    ∷ codes
        "  -a, --ascii <str>       Send raw ASCII payload string directly with escape support (e.g. \"NC0000\\x19\")\n"
    ∷ codes
        "  -T, --term <hex>        Append/stop on 1-byte HEX termination character (e.g. \"19\" or \"0x19\")\n"
    ∷ codes
        "  -L, --add-tcp-len       Prepend 2-byte Big-Endian TCP length header to ASCII/HEX payload\n"
    ∷ codes "  -D, --decode-hsm        Enable payShield 10K HSM Response Decoder analysis\n"
    ∷ codes "      --hsm-header-len <n> Set HSM Message Header length in bytes (default: 0 or 4)\n"
    ∷ codes "  -i, --interactive       Force interactive mode\n"
    ∷ codes "  -v, --verbose           Enable verbose output\n"
    ∷ codes "  -H, --help              Display this help message and exit\n"
    ∷ codes "  -V, --version           Output version information and exit\n"
    ∷ []

unfoldable pub print_usage : Option Bytes → Bytes
print_usage prog_name =
    let name = name_of prog_name in
    codes "Usage: "
    ++ (name
        ++ (codes " [options] <host> <port>\n       "
            ++ (name
                ++ (codes " [options] --host <host> --port <port>\n\nOptions:\n"
                    ++ joined option_lines))))

unfoldable pub print_version : Bytes
print_version = codes "tcp-client version 1.0.0\n"
