-- ===== src/Main/Clean.antt =====
-- How the program exits: its codes, its sockets and the platform.
use tcp_client.Base.{
  ℕ, ◌≤◌, ◌≡◌, ◌≢◌, ◌↔◌, ◌⊎◌, inl, inr, refl, sym, ap, ◌∙◌, arith, Bool, true, false, Option, none,
  some, [], ◌∷◌, ◌++◌, append-nil, Bytes, length, ◌==◌, if◌then◌else◌, Bool-cases, ok, err,
}
use mathlib.Core.Path.{subst}
use tcp_client.Cli.Args.{Config, parse_cli_args, choose_mode}
use tcp_client.Cli.Checked.{HexIsRead, InRange, parse_cli_args-InRange}
use tcp_client.Socket.Codes.{Code}
use tcp_client.Socket.Connect as Connect
use tcp_client.Socket.Connect.{socket_connect, socket_close}
use tcp_client.Socket.Leaks.{returned, IsBalanced, socket_connect-IsBalanced}
use tcp_client.Interactive.Sound.{AreBytes}
use tcp_client.Main.Program.{
  World, Exit, no_platform, exit, exit_code, result_code, closed_by, left_by, after_mode,
  after_connect, connect, after_parse, main,
}
use tcp_client.Main.Codes.{IsRunCode, Yields, same_code, result_code-Yields, exit_code-run}

-- Where the program exits, every socket is closed, the platform is left once and the code satisfies
-- `P`.
abbrev Orderly : (ℕ → Type 0) → Exit → Type 0
Orderly P e = (n : ℕ) → e.code ≡ some n → P n × ((e.opened ≡ e.closed) × (e.cleanups ≡ 1))

after_mode-Orderly :
    (code : Option ℕ) (sockfd : ℕ) (o : Connect.Outcome)
    → o.opened ≡ o.closed ++ sockfd ∷ []
    → Yields IsRunCode code
    → Orderly IsRunCode (after_mode code sockfd o)
unfolding after_mode closed_by left_by socket_close
after_mode-Orderly none sockfd o balance yields = λ n. ground arith
after_mode-Orderly (some m) sockfd o balance yields = λ n e. (yields n e, (balance, refl))

after_connect-Orderly :
    (w : World) (config : Config) (code : Code) (o : Connect.Outcome)
    → o.opened ≡ o.closed ++ returned code
    → ((sockfd : ℕ) → Yields IsRunCode (result_code w config sockfd config.mode))
    → Orderly IsRunCode (after_connect w config code o)
unfolding after_connect
after_connect-Orderly w config (err e) o balance yields = λ n h.
    (same_code IsRunCode (exit_code e) (exit_code-run e) n h, (balance ∙ append-nil o.closed, refl))
after_connect-Orderly w config (ok sockfd) o balance yields =
    after_mode-Orderly _ sockfd o balance (yields sockfd)

module _ (w : World) (size : length w.edit_buf ≡ 65536) (bytes : AreBytes w.input) where
  connect-Orderly :
      (config : Config)
      → HexIsRead config.is_hex config.hex_payload
      → Orderly IsRunCode (connect w config)
  unfolding connect
  connect-Orderly config read =
      let o = socket_connect (some config.host) config.port w.found in
      after_connect-Orderly w config o.code o
        (unfold IsBalanced in socket_connect-IsBalanced (some config.host) config.port w.found)
        (λ sockfd. result_code-Yields w size bytes config read sockfd config.mode)

  exit_0-Orderly : (text : Bytes) → Orderly IsRunCode (exit 0 text)
  unfolding exit
  exit_0-Orderly text = λ n h. (same_code IsRunCode 0 (omega arith, omega arith) n h, (refl, refl))

  if_Orderly :
      (x y : Exit) (b : Bool)
      → Orderly IsRunCode x
      → Orderly IsRunCode y
      → Orderly IsRunCode (if b then x else y)
  if_Orderly x y true hx hy = hx
  if_Orderly x y false hx hy = hy

  -- An accepted command line.
  accepted-Orderly :
      (config : Config)
      → HexIsRead config.is_hex config.hex_payload
      → Orderly IsRunCode (after_parse w (0, config))
  unfolding after_parse
  accepted-Orderly config read = if_Orderly _ _ config.show_help (exit_0-Orderly _) (
      if_Orderly _ _ config.show_version (exit_0-Orderly _)
        (connect-Orderly (record config { mode = choose_mode w.stdin_is_tty config }) read))

refused_exit :
    (w : World) (code : ℕ) (config : Config) → code ≢ 0 → after_parse w (code, config) ≡ exit 1 []
unfolding after_parse
refused_exit w code config h = let other : (code == 0) ≡ false = ground arith in rw other refl

-- A program that has a platform either refuses its command line, or runs and exits with another code.
abbrev IsSplit : Exit → ℕ → Type 0
IsSplit e parsed = ((parsed ≢ 0) × (e ≡ exit 1 [])) ⊎ ((parsed ≡ 0) × Orderly IsRunCode e)

after_parse-IsSplit :
    (w : World)
    → length w.edit_buf ≡ 65536
    → AreBytes w.input
    → (p : ℕ × Config) → InRange p.1
    → IsSplit (after_parse w p) p.0
after_parse-IsSplit w size bytes (code, config) fits = elim (Bool-cases (code == 0)) [
  | inl e ↦
      let zero : code ≡ 0 = ground arith in
      inr (
        zero,
        subst (λ n. Orderly IsRunCode (after_parse w (n, config))) (sym zero)
            (accepted-Orderly w size bytes config fits.4),
      )
  | inr e ↦ let ne : code ≢ 0 = ground arith in inl (ne, refused_exit w code config ne)
]

module _ (w : World) (size : length w.edit_buf ≡ 65536) (bytes : AreBytes w.input) where
  parsed-IsSplit :
      IsSplit
        (after_parse w (parse_cli_args w.opts w.arguments))
        (parse_cli_args w.opts w.arguments).0
  parsed-IsSplit =
      after_parse-IsSplit w size bytes (parse_cli_args w.opts w.arguments)
        (parse_cli_args-InRange w.opts w.arguments)

  main_cases :
      ((w.platform_ok ≡ false) × (main w ≡ no_platform))
      ⊎ ((w.platform_ok ≡ true) × IsSplit (main w) (parse_cli_args w.opts w.arguments).0)
  unfolding main
  main_cases = split_of w.platform_ok
    where
      parsed : Exit
      parsed = after_parse w (parse_cli_args w.opts w.arguments)

      split_of :
          (b : Bool)
          → ((b ≡ false) × ((if b then parsed else no_platform) ≡ no_platform))
            ⊎ ((b ≡ true)
                × IsSplit (if b then parsed else no_platform) (parse_cli_args w.opts w.arguments).0)
      split_of true = inr (refl, parsed-IsSplit)
      split_of false = inl (refl, refl)

-- How often the platform is left.
abbrev pub calls : Bool → ℕ
calls b = if b then 1 else 0

-- However the program exits, the code is at most 5, every socket that it opened has been closed, and
-- platform_cleanup() has been called once, or not at all where platform_init() has failed; where the
-- line buffer has its 65536 bytes and stdin gives bytes.
pub main-IsClean :
    (w : World) (n : ℕ)
    → length w.edit_buf ≡ 65536
    → AreBytes w.input
    → (main w).code ≡ some n
    → (n ≤ 5) × (((main w).opened ≡ (main w).closed) × ((main w).cleanups ≡ calls w.platform_ok))
main-IsClean w n size bytes e = elim (main_cases w size bytes) [
  | inl (down, x) ↦ rw x (
      unfold no_platform in
      (
        same_code (λ k. k ≤ 5) 5 (omega arith) n (ap (λ d. d.code) (sym x) ∙ e),
        (refl, ap calls (sym down)),
      ))
  | inr (up, inl (ne, x)) ↦ rw x (
      unfold exit in
      (
        same_code (λ k. k ≤ 5) 1 (omega arith) n (ap (λ d. d.code) (sym x) ∙ e),
        (refl, ap calls (sym up)),
      ))
  | inr (up, inr (accepted, x)) ↦
      let ((small, other), (closed, once)) = x n e in (small, (closed, once ∙ ap calls (sym up)))
]

-- The program exits with 1 exactly where it refuses its command line: no failure of the network, no
-- line that is typed and no payload leads to that code; where the line buffer has its 65536 bytes and
-- stdin gives bytes.
pub main_refused_iff :
    (w : World)
    → length w.edit_buf ≡ 65536
    → AreBytes w.input
    → ((main w).code ≡ some 1)
      ↔ ((w.platform_ok ≡ true) × ((parse_cli_args w.opts w.arguments).0 ≢ 0))
unfolding exit no_platform
main_refused_iff w size bytes = elim (main_cases w size bytes) [
  | inl (down, x) ↦ (
    λ h. absurd (let five : some 5 ≡ some 1 = sym (ap (λ e. e.code) x) ∙ h in ground arith),
    λ (p, ne). absurd (cc),
  )
  | inr (up, inl (ne, x)) ↦ (λ h. (up, ne), λ h. ap (λ e. e.code) x)
  | inr (up, inr (accepted, x)) ↦ (λ h. absurd ((x 1 h).0.1 refl), λ (p, ne). absurd (ne accepted))
]
