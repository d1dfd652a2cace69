-- ===== src/Cli/Checked.antt =====
-- What parse_cli_args has checked when it returns.
use tcp_client.Base.{
  ℕ, ◌≤◌, ◌<◌, ◌≡◌, inl, inr, refl, arith, Bool, true, false, ◌||◌, Option, none, some, List, [],
  ◌∷◌, Bytes, length, ltb, leb, ◌==◌, ok, err, Result, Bool-cases,
}
use tcp_client.Hex.{HexError, hex_to_bytes, unescape_string, parse_hex_byte}
use tcp_client.Hex.Byte.{parse_hex_byte-byte}
use tcp_client.Hex.Escape.{length-unescape_string}
use tcp_client.Cli.Numbers.{ℤ, pos, negsuc, in_int, int_max, checked, strtol_whole, parse_int}
use tcp_client.Cli.Args.{
  Config, Opt, opt_host, opt_port, opt_timeout, opt_hex, opt_ascii, opt_term, opt_header_len,
  opt_hex_out, opt_add_tcp_len, opt_decode_hsm, opt_interactive, opt_verbose, opt_help, opt_version,
  other, Step, next, stop, default_config, in_range, natural, set_host, set_port, set_timeout,
  set_header_len, set_hex, set_ascii, set_term, take_opt, take_argument, each, finish,
  parse_cli_args,
}

-- A payload that is flagged as HEX can be read, and one that is not is not looked at.
abbrev pub HexIsRead : Bool → Bytes → Type 0
HexIsRead false text = Unit
HexIsRead true text = (bytes : Bytes) × (hex_to_bytes (some text) (some 65536) ≡ ok bytes)

-- The ranges of the fields: the host, the port, the header length, the HEX text, which can be read
-- where it is flagged, the ASCII payload, the timeout, which is an int, and the termination character.
abbrev pub InRange : Config → Type 0
InRange c =
    (length c.host < 256)
    × (c.port ≤ 65535)
    × (c.hsm_header_len ≤ 64)
    × (length c.hex_payload < 65536)
    × HexIsRead c.is_hex c.hex_payload
    × (length c.ascii_payload ≤ 65536)
    × (c.timeout_ms ≤ 2147483647)
    × (c.term_char < 256)

abbrev StepInRange : Step → Type 0
StepInRange (next c) = InRange c
StepInRange (stop code c) = InRange c

default_config-InRange : InRange default_config
unfolding default_config
default_config-InRange =
    (omega arith, omega arith, omega arith, omega arith, tt, omega arith, omega arith, omega arith)

set_host-InRange : (text : Bytes) (c : Config) → InRange c → StepInRange (set_host text c)
unfolding set_host
set_host-InRange text c h =
    let (host, port, header, hex, is_read, ascii, time, term) = h in
    elim (Bool-cases (leb 256 (length text))) [
      | inl p ↦ rw p h
      | inr p ↦ rw p (ground arith, port, header, hex, is_read, ascii, time, term)
    ]

-- The number, where there is one, is at most `high`.
AtMost : ℕ → Option ℕ → Type 0
AtMost high none = Unit
AtMost high (some n) = n ≤ high

in_range-AtMost : (low high : ℕ) (val : Option ℤ) → AtMost high (in_range low high val)
unfolding in_range
in_range-AtMost low high none = unfold AtMost in tt
in_range-AtMost low high (some (negsuc n)) = unfold AtMost in tt
in_range-AtMost low high (some (pos n)) = elim (Bool-cases (ltb n low || ltb high n)) [
  | inl p ↦ rw p (unfold AtMost in tt)
  | inr p ↦ rw p (unfold AtMost in ground arith)
]

set_port-InRange :
    (val : Option ℕ) (c : Config) → AtMost 65535 val → InRange c → StepInRange (set_port val c)
unfolding set_port AtMost
set_port-InRange none c le h = h
set_port-InRange (some n) c le (host, port, header, hex, is_read, ascii, time, term) =
    (host, le, header, hex, is_read, ascii, time, term)

set_header_len-InRange :
    (val : Option ℕ) (c : Config) → AtMost 64 val → InRange c → StepInRange (set_header_len val c)
unfolding set_header_len AtMost
set_header_len-InRange none c le h = h
set_header_len-InRange (some n) c le (host, port, header, hex, is_read, ascii, time, term) =
    (host, port, le, hex, is_read, ascii, time, term)

checked-AtMost : (val : Option ℤ) → AtMost 2147483647 (natural (checked val))
unfolding checked natural AtMost in_int int_max
checked-AtMost none = tt
checked-AtMost (some (negsuc n)) = elim (Bool-cases (leb n 2147483647)) [
  | inl p ↦ rw p tt
  | inr p ↦ rw p tt
]
checked-AtMost (some (pos n)) = elim (Bool-cases (leb n 2147483647)) [
  | inl p ↦ rw p (ground arith)
  | inr p ↦ rw p tt
]

-- A number that parse_int reads is an int.
natural-AtMost : (text : Bytes) → AtMost 2147483647 (natural (parse_int (some text)))
unfolding parse_int natural
natural-AtMost [] = unfold AtMost in tt
natural-AtMost (c ∷ s) = checked-AtMost (strtol_whole (c ∷ s))

set_timeout-InRange :
    (val : Option ℕ) (c : Config)
    → AtMost 2147483647 val
    → InRange c
    → StepInRange (set_timeout val c)
unfolding set_timeout AtMost
set_timeout-InRange none c le h = h
set_timeout-InRange (some n) c le (host, port, header, hex, is_read, ascii, time, term) =
    (host, port, header, hex, is_read, ascii, le, term)

set_hex-InRange :
    (text : Bytes) (r : Result HexError Bytes) (c : Config)
    → hex_to_bytes (some text) (some 65536) ≡ r
    → length text < 65536
    → InRange c
    → StepInRange (set_hex text r c)
unfolding set_hex
set_hex-InRange text (err e) c read short h = h
set_hex-InRange text (ok bytes) c read short (host, port, header, hex, is_read, ascii, time, term) =
    (host, port, header, short, (bytes, read), ascii, time, term)

set_ascii-InRange :
    (text : Bytes) (r : Result HexError Bytes) (c : Config)
    → unescape_string (some text) (some 65536) ≡ r
    → InRange c
    → StepInRange (set_ascii r c)
unfolding set_ascii
set_ascii-InRange text (err e) c read h = h
set_ascii-InRange text (ok bytes) c read (host, port, header, hex, is_read, ascii, time, term) =
    (host, port, header, hex, is_read, (length-unescape_string text bytes 65536 read).0, time, term)

set_term-InRange :
    (text : Bytes) (r : Result HexError ℕ) (c : Config)
    → parse_hex_byte (some text) true ≡ r
    → InRange c
    → StepInRange (set_term r c)
unfolding set_term
set_term-InRange text (err e) c read h = h
set_term-InRange text (ok b) c read (host, port, header, hex, is_read, ascii, time, term) =
    (host, port, header, hex, is_read, ascii, time, parse_hex_byte-byte text b read)

take_opt-InRange : (o : Opt) (c : Config) → InRange c → StepInRange (take_opt o c)
unfolding take_opt
take_opt-InRange (opt_host arg) c h = set_host-InRange arg c h
take_opt-InRange (opt_port arg) c h = set_port-InRange _ c (in_range-AtMost 1 65535 _) h
take_opt-InRange (opt_timeout arg) c h = set_timeout-InRange _ c (natural-AtMost arg) h
take_opt-InRange (opt_hex arg) c h = elim (Bool-cases (leb 65536 (length arg))) [
  | inl p ↦ rw p h
  | inr p ↦ rw p (set_hex-InRange arg _ c refl (ground arith) h)
]
take_opt-InRange (opt_ascii arg) c h = set_ascii-InRange arg _ c refl h
take_opt-InRange (opt_term arg) c h = set_term-InRange arg _ c refl h
take_opt-InRange (opt_header_len arg) c h = set_header_len-InRange _ c (in_range-AtMost 0 64 _) h
take_opt-InRange opt_hex_out c h = h
take_opt-InRange opt_add_tcp_len c h = h
take_opt-InRange opt_decode_hsm c h = h
take_opt-InRange opt_interactive c h = h
take_opt-InRange opt_verbose c h = h
take_opt-InRange opt_help c h = h
take_opt-InRange opt_version c h = h
take_opt-InRange other c h = h

take_argument-InRange : (arg : Bytes) (c : Config) → InRange c → StepInRange (take_argument arg c)
unfolding take_argument
take_argument-InRange arg c h = elim (Bool-cases (length c.host == 0)) [
  | inl p ↦ rw p (set_host-InRange arg c h)
  | inr p ↦ elim (Bool-cases (c.port == 0)) [
    | inl q ↦ rw (p, q) (set_port-InRange _ c (in_range-AtMost 1 65535 _) h)
    | inr q ↦ rw (p, q) h
  ]
]

each-InRange {ℓ} :
    {A : Type ℓ} (f : A → Config → Step)
    → ((a : A) (c : Config) → InRange c → StepInRange (f a c))
    → (items : List A) (s : Step) → StepInRange s
    → StepInRange (each f items s)
unfolding each
each-InRange f hf [] s h = h
each-InRange f hf (a ∷ rest) (stop code c) h = h
each-InRange f hf (a ∷ rest) (next c) h = each-InRange f hf rest (f a c) (hf a c h)

finish-InRange : (s : Step) → StepInRange s → InRange (finish s).1
unfolding finish
finish-InRange (next c) h = h
finish-InRange (stop code c) h = h

-- Whatever the options and the arguments, the configuration that parse_cli_args leaves has a host of
-- less than 256 bytes, a port of at most 65535, a header length of at most 64, a HEX text of less than
-- 65536 bytes, which can be read where it is flagged, an ASCII payload of at most 65536 bytes, a timeout
-- that is an int and not negative, and a termination character that is a byte.
pub parse_cli_args-InRange :
    (opts : List Opt) (arguments : List Bytes) → InRange (parse_cli_args opts arguments).1
unfolding parse_cli_args
parse_cli_args-InRange opts arguments =
    let options =
      each-InRange take_opt take_opt-InRange opts (next default_config) default_config-InRange in
    finish-InRange _ (each-InRange take_argument take_argument-InRange arguments _ options)
