-- ===== src/Main/Help.antt =====
-- What the option for the help does to the whole program.
use tcp_client.Base.{ℕ, ◌≡◌, ◌∙◌, refl, ap, true, List, [], ◌∷◌, ◌++◌, Bytes, if◌then◌else◌}
use tcp_client.Cli.Args.{
  Config, Opt, opt_help, Step, next, stop, default_config, take_opt, take_argument, each, finish,
  parse_cli_args,
}
use tcp_client.Cli.Usage.{print_usage}
use tcp_client.Main.Program.{World, no_platform, exit, after_parse, main}

each-append {ℓ} :
    {A : Type ℓ} (f : A → Config → Step) (xs ys : List A) (s : Step)
    → each f (xs ++ ys) s ≡ each f ys (each f xs s)
unfolding each
each-append f [] ys s = refl
each-append f (x ∷ xs) [] (stop code c) = refl
each-append f (x ∷ xs) (y ∷ ys) (stop code c) = refl
each-append f (x ∷ xs) ys (next c) = each-append f xs ys (f x c)

each-stop {ℓ} :
    {A : Type ℓ} (f : A → Config → Step) (xs : List A) (code : ℕ) (c : Config)
    → each f xs (stop code c) ≡ stop code c
unfolding each
each-stop f [] code c = refl
each-stop f (x ∷ xs) code c = refl

parse_cli_args-help :
    (asked rest : List Opt) (arguments : List Bytes) (c : Config)
    → each take_opt asked (next default_config) ≡ next c
    → parse_cli_args (asked ++ opt_help ∷ rest) arguments ≡ (0, record c { show_help = true })
unfolding parse_cli_args finish each take_opt
parse_cli_args-help asked rest arguments c accepted =
    ap (λ s. finish (each take_argument arguments s))
      (each-append take_opt asked (opt_help ∷ rest) (next default_config)
        ∙ ap (each take_opt (opt_help ∷ rest)) accepted
        ∙ each-stop take_opt rest 0 _)
    ∙ ap finish (each-stop take_argument arguments 0 _)

-- Where the options before it are accepted, the option for the help makes the program print the usage
-- under its own name and exit with 0, whatever options and arguments come with it: no socket is
-- opened, nothing else is printed by main, and the platform is left once.
pub main-help :
    (w : World) (asked rest : List Opt) (c : Config)
    → w.platform_ok ≡ true
    → w.opts ≡ asked ++ opt_help ∷ rest
    → each take_opt asked (next default_config) ≡ next c
    → main w ≡ exit 0 (print_usage w.prog_name)
unfolding main after_parse
main-help w asked rest c up opts accepted =
    let parsed =
      ap (λ os. parse_cli_args os w.arguments) opts
      ∙ parse_cli_args-help asked rest w.arguments c accepted in
    ap (λ b. if b then after_parse w (parse_cli_args w.opts w.arguments) else no_platform) up
    ∙ ap (after_parse w) parsed
