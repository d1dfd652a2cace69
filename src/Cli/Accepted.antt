-- ===== src/Cli/Accepted.antt =====
-- What the program has to run with where parse_cli_args returns 0.
use tcp_client.Base.{
  ℕ, ◌<◌, ◌≡◌, ◌⊎◌, inl, inr, refl, arith, true, ◌||◌, Option, none, some, List, [], ◌∷◌, Bytes,
  length, leb, ◌==◌, ok, err, Result, Bool-cases,
}
use tcp_client.Hex.{HexError}
use tcp_client.Cli.Args.{
  Config, Opt, opt_host, opt_port, opt_timeout, opt_hex, opt_ascii, opt_term, opt_header_len,
  opt_hex_out, opt_add_tcp_len, opt_decode_hsm, opt_interactive, opt_verbose, opt_help, opt_version,
  other, Step, next, stop, default_config, set_host, set_port, set_timeout, set_header_len, set_hex,
  set_ascii, set_term, take_opt, take_argument, each, validate, finish, parse_cli_args,
}

-- A loop that returns 0 has been asked for the help or the version.
StopsAsked : Step → Type 0
StopsAsked (next c) = Unit
StopsAsked (stop code c) = code ≡ 0 → (c.show_help || c.show_version) ≡ true

set_host-StopsAsked : (text : Bytes) (c : Config) → StopsAsked (set_host text c)
unfolding set_host
set_host-StopsAsked text c = elim (Bool-cases (leb 256 (length text))) [
  | inl p ↦ rw p (unfold StopsAsked in λ e. absurd (omega arith))
  | inr p ↦ rw p (unfold StopsAsked in tt)
]

set_port-StopsAsked : (val : Option ℕ) (c : Config) → StopsAsked (set_port val c)
unfolding set_port StopsAsked
set_port-StopsAsked none c = λ e. absurd (omega arith)
set_port-StopsAsked (some n) c = tt

set_header_len-StopsAsked : (val : Option ℕ) (c : Config) → StopsAsked (set_header_len val c)
unfolding set_header_len StopsAsked
set_header_len-StopsAsked none c = λ e. absurd (omega arith)
set_header_len-StopsAsked (some n) c = tt

set_timeout-StopsAsked : (val : Option ℕ) (c : Config) → StopsAsked (set_timeout val c)
unfolding set_timeout StopsAsked
set_timeout-StopsAsked none c = λ e. absurd (omega arith)
set_timeout-StopsAsked (some n) c = tt

set_hex-StopsAsked :
    (text : Bytes) (r : Result HexError Bytes) (c : Config) → StopsAsked (set_hex text r c)
unfolding set_hex StopsAsked
set_hex-StopsAsked text (err x) c = λ e. absurd (omega arith)
set_hex-StopsAsked text (ok bytes) c = tt

set_ascii-StopsAsked : (r : Result HexError Bytes) (c : Config) → StopsAsked (set_ascii r c)
unfolding set_ascii StopsAsked
set_ascii-StopsAsked (err x) c = λ e. absurd (omega arith)
set_ascii-StopsAsked (ok bytes) c = tt

set_term-StopsAsked : (r : Result HexError ℕ) (c : Config) → StopsAsked (set_term r c)
unfolding set_term StopsAsked
set_term-StopsAsked (err x) c = λ e. absurd (omega arith)
set_term-StopsAsked (ok b) c = tt

fails-StopsAsked : (c : Config) → StopsAsked (stop 1 c)
unfolding StopsAsked
fails-StopsAsked c = λ e. absurd (omega arith)

goes_on-StopsAsked : (c : Config) → StopsAsked (next c)
unfolding StopsAsked
goes_on-StopsAsked c = tt

take_opt-StopsAsked : (o : Opt) (c : Config) → StopsAsked (take_opt o c)
unfolding take_opt
take_opt-StopsAsked (opt_host arg) c = set_host-StopsAsked arg c
take_opt-StopsAsked (opt_port arg) c = set_port-StopsAsked _ c
take_opt-StopsAsked (opt_timeout arg) c = set_timeout-StopsAsked _ c
take_opt-StopsAsked (opt_hex arg) c = elim (Bool-cases (leb 65536 (length arg))) [
  | inl p ↦ rw p (fails-StopsAsked c)
  | inr p ↦ rw p (set_hex-StopsAsked arg _ c)
]
take_opt-StopsAsked (opt_ascii arg) c = set_ascii-StopsAsked _ c
take_opt-StopsAsked (opt_term arg) c = set_term-StopsAsked _ c
take_opt-StopsAsked (opt_header_len arg) c = set_header_len-StopsAsked _ c
take_opt-StopsAsked opt_hex_out c = goes_on-StopsAsked _
take_opt-StopsAsked opt_add_tcp_len c = goes_on-StopsAsked _
take_opt-StopsAsked opt_decode_hsm c = goes_on-StopsAsked _
take_opt-StopsAsked opt_interactive c = goes_on-StopsAsked _
take_opt-StopsAsked opt_verbose c = goes_on-StopsAsked _
take_opt-StopsAsked opt_help c = unfold StopsAsked in λ e. refl
take_opt-StopsAsked opt_version c = unfold StopsAsked in λ e. ground arith
take_opt-StopsAsked other c = fails-StopsAsked c

take_argument-StopsAsked : (arg : Bytes) (c : Config) → StopsAsked (take_argument arg c)
unfolding take_argument
take_argument-StopsAsked arg c = elim (Bool-cases (length c.host == 0)) [
  | inl p ↦ rw p (set_host-StopsAsked arg c)
  | inr p ↦ elim (Bool-cases (c.port == 0)) [
    | inl q ↦ rw (p, q) (set_port-StopsAsked _ c)
    | inr q ↦ rw (p, q) (fails-StopsAsked c)
  ]
]

each-StopsAsked {ℓ} :
    {A : Type ℓ} (f : A → Config → Step)
    → ((a : A) (c : Config) → StopsAsked (f a c))
    → (items : List A) (s : Step) → StopsAsked s
    → StopsAsked (each f items s)
unfolding each
each-StopsAsked f hf [] s h = h
each-StopsAsked f hf (a ∷ rest) (stop code c) h = h
each-StopsAsked f hf (a ∷ rest) (next c) h = each-StopsAsked f hf rest (f a c) (hf a c)

finish-StopsAsked :
    (s : Step)
    → StopsAsked s
    → (finish s).0 ≡ 0
    → let c = (finish s).1 in
      ((c.show_help || c.show_version) ≡ true) ⊎ ((0 < length c.host) × (0 < c.port))
unfolding finish StopsAsked validate
finish-StopsAsked (stop code c) h e = inl (h e)
finish-StopsAsked (next c) h e = elim (Bool-cases (c.show_help || c.show_version)) [
  | inl p ↦ inl p
  | inr p ↦ inr (ground arith, ground arith)
]

-- Where parse_cli_args returns 0, the help or the version has been asked for, or there is a host
-- and a port.
pub parse_cli_args-accepted :
    (opts : List Opt) (arguments : List Bytes)
    → (parse_cli_args opts arguments).0 ≡ 0
    → let c = (parse_cli_args opts arguments).1 in
      ((c.show_help || c.show_version) ≡ true) ⊎ ((0 < length c.host) × (0 < c.port))
unfolding parse_cli_args
parse_cli_args-accepted opts arguments e =
    let options =
      each-StopsAsked take_opt take_opt-StopsAsked opts (next default_config)
        (goes_on-StopsAsked _) in
    finish-StopsAsked _ (each-StopsAsked take_argument take_argument-StopsAsked arguments _ options)
      e
