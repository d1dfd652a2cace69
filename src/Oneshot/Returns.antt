-- ===== src/Oneshot/Returns.antt =====
-- Which codes the one-shot mode returns, and when it returns.
use tcp_client.Base.{
  ℕ, ◌≡◌, ◌⊎◌, refl, arith, Bool, true, false, ◌||◌, Option, some, List, [], ◌∷◌, ◌++◌, Bytes,
  if◌then◌else◌, inl, inr, ok, err, Result,
}
use mathlib.Core.Path.{subst}
use tcp_client.Hex.{HexError, hex_to_bytes}
use tcp_client.Cli.Args.{Config}
use tcp_client.Oneshot.Loop.{
  poll_timeout, Round, State, Step, on_poll, round, Outcome, finish, go_on, loop,
}
use tcp_client.Oneshot.Payload.{buf_size}
use tcp_client.Oneshot.Mode.{Ran, refused, ran, run_hex, run_valid, run_oneshot_mode, code_of}
use tcp_client.Oneshot.Ends.{IsExit, IsSound, sound_goes, sound_exits, round-IsSound}

-- The code, if there is one, is one of the three.
abbrev ExitsSoundly : Outcome → Type 0
ExitsSoundly o = (n : ℕ) → o.code ≡ some n → IsExit n

-- The code is one of the three.
abbrev Exits : Option ℕ → Type 0
Exits code = (n : ℕ) × (code ≡ some n) × IsExit n

finish-Exits : (c : Config) (s : State) → Exits (finish c s).code
unfolding finish
finish-Exits c s = (0, refl, inl refl)

-- A round that ends the loop: a signal came, or poll() timed out.
abbrev pub Stops : Round → Type 0
Stops r = (r.interrupted ≡ true) ⊎ (r.poll ≡ poll_timeout)

module _ (c : Config) where
  sound_code : {code : Option ℕ} → Exits code → (n : ℕ) → code ≡ some n → IsExit n
  sound_code (m, e, x) n h = let same : m ≡ n = cc in subst IsExit same x

  go_on-Exits :
      {x : Step} (rest : State → Outcome)
      → IsSound x
      → ((s : State) → Exits (rest s).code)
      → Exits (go_on x rest).code
  unfolding go_on
  go_on-Exits rest sound_goes h = h _
  go_on-Exits rest (sound_exits {n = n} e) h = (n, refl, e)

  go_on-ExitsSoundly :
      {x : Step} (rest : State → Outcome)
      → IsSound x
      → ((s : State) → ExitsSoundly (rest s))
      → ExitsSoundly (go_on x rest)
  unfolding go_on
  go_on-ExitsSoundly rest sound_goes h = h _
  go_on-ExitsSoundly rest (sound_exits e) h = sound_code (_, refl, e)

  one_of : (P : Outcome → Type 0) (x y : Outcome) (b : Bool) → P x → P y → P (if b then x else y)
  one_of P x y true hx hy = hx
  one_of P x y false hx hy = hy

  loop-ExitsSoundly : (rounds : List Round) (s : State) → ExitsSoundly (loop c s rounds)
  unfolding loop
  loop-ExitsSoundly [] s =
      one_of ExitsSoundly _ _ s.socket_eof (sound_code (finish-Exits c s)) (λ n. ground arith)
  loop-ExitsSoundly (r ∷ rounds) s =
      one_of ExitsSoundly _ _ (r.interrupted || s.socket_eof) (sound_code (finish-Exits c s))
        (go_on-ExitsSoundly _ (round-IsSound c r s) (loop-ExitsSoundly rounds))

  stopped :
      (r : Round) (rest : State → Outcome) (s : State)
      → Stops r
      → Exits (if r.interrupted || s.socket_eof then finish c s else go_on (round c r s) rest).code
  unfolding round on_poll go_on
  stopped r rest s (inl e) = rw e (finish-Exits c s)
  stopped r rest s (inr e) =
      one_of (λ o. Exits o.code) _ _ (r.interrupted || s.socket_eof) (finish-Exits c s)
        (rw e (4, refl, inr (inl refl)))

  loop-Exits :
      (before after : List Round) (r : Round) (s : State)
      → Stops r
      → Exits (loop c s (before ++ r ∷ after)).code
  unfolding loop
  loop-Exits [] after r s h = stopped r _ s h
  loop-Exits (q ∷ before) after r s h =
      one_of (λ o. Exits o.code) _ _ (q.interrupted || s.socket_eof) (finish-Exits c s)
        (go_on-Exits _ (round-IsSound c q s) (λ t. loop-Exits before after r t h))

-- A payload that is flagged as HEX and cannot be read.
abbrev pub IsBadHex : Config → Type 0
IsBadHex c =
    (c.is_hex ≡ true)
    × ((e : HexError) × (hex_to_bytes (some c.hex_payload) (some buf_size) ≡ err e))

-- What the mode may return.
abbrev pub IsCode : Config → ℕ → Type 0
IsCode c n = IsExit n ⊎ ((n ≡ 1) × IsBadHex c)

abbrev ReturnsSoundly : Config → Ran → Type 0
ReturnsSoundly c x = (n : ℕ) → code_of x ≡ some n → IsCode c n

abbrev Returns : Config → Ran → Type 0
Returns c x = (n : ℕ) × (code_of x ≡ some n) × IsCode c n

if_Ran : (P : Ran → Type 0) (x y : Ran) (b : Bool) → (b ≡ true → P x) → P y → P (if b then x else y)
if_Ran P x y true hx hy = hx refl
if_Ran P x y false hx hy = hy

module _ (c : Config) (P : Ran → Type 0) (rounds : List Round) where
  -- What holds of the loop from every state, and of a payload that is refused, holds of the mode.
  run_valid_lem :
      ((s : State) → P (ran (loop c s rounds)))
      → (IsBadHex c → P (refused 1))
      → P (run_valid c rounds)
  unfolding run_valid
  run_valid_lem loops bad =
      if_Ran P _ _ c.is_hex (λ is_hex. hex_lem is_hex _ refl)
        (if_Ran P _ _ c.is_ascii (λ _. loops _) (loops _))
    where
      hex_lem :
          c.is_hex ≡ true
          → (payload : Result HexError Bytes)
          → hex_to_bytes (some c.hex_payload) (some buf_size) ≡ payload
          → P (run_hex c payload rounds)
      hex_lem is_hex (err e) same = unfold run_hex in bad (is_hex, (e, same))
      hex_lem is_hex (ok payload) same = unfold run_hex in loops _

-- The one-shot mode returns nothing but 0, 4 and 5, and 1 for a HEX payload that cannot be read.
pub run_oneshot_mode-IsCode :
    (c : Config) (rounds : List Round) (n : ℕ)
    → code_of (run_oneshot_mode (some c) rounds) ≡ some n
    → IsCode c n
unfolding run_oneshot_mode code_of
run_oneshot_mode-IsCode c rounds =
    run_valid_lem c (ReturnsSoundly c) rounds (λ s n e. inl (loop-ExitsSoundly c rounds s n e))
      (λ bad n e. inr (ground arith, bad))

-- The one-shot mode returns once poll() times out or a signal comes, whatever happened before: with 0,
-- 4 or 5, or with 1 for a HEX payload that cannot be read.
pub run_oneshot_mode-returns :
    (c : Config) (before after : List Round) (r : Round)
    → Stops r
    → (n : ℕ) × (code_of (run_oneshot_mode (some c) (before ++ r ∷ after)) ≡ some n) × IsCode c n
unfolding run_oneshot_mode code_of
run_oneshot_mode-returns c before after r stops =
    run_valid_lem c (Returns c) (before ++ r ∷ after)
      (λ s. let (n, e, x) = loop-Exits c before after r s stops in (n, e, inl x))
      (λ bad. (1, refl, inr (refl, bad)))
