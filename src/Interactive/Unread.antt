-- ===== src/Interactive/Unread.antt =====
-- What a socket's events leave alone in a session: the input that is still to come.
use tcp_client.Base.{
  ◌≡◌, refl, Bool, true, false, Option, none, some, Bytes, ◌==◌, if◌then◌else◌, ok, err,
}
use tcp_client.Linenoise.State as Linenoise
use tcp_client.Linenoise.State.{again}
use tcp_client.Socket.Codes.{dns, refused, timeout, io, Code}
use tcp_client.Interactive.Handler.{
  Session, carry_on, closed, failed, Handled, returns, blocks, fault, redrawn, show_data,
  handle_socket_data,
}
use tcp_client.Interactive.Terminal.{
  Round, Step, goes, leaves, stuck, broken, and_then, after_handler, hang_up, socket_event,
}

pub KeepsInput : Bytes → Step → Type 0
KeepsInput input (goes t) = t.input ≡ input
KeepsInput input _ = Unit

HandledInput : Bytes → Handled → Type 0
HandledInput input (returns r t) = t.input ≡ input
HandledInput input _ = Unit

module _ (input : Bytes) where
  if_Handled :
      (x y : Handled) (b : Bool)
      → HandledInput input x
      → HandledInput input y
      → HandledInput input (if b then x else y)
  if_Handled x y true h k = h
  if_Handled x y false h k = k

  if_Keeps :
      (x y : Step) (b : Bool)
      → KeepsInput input x
      → KeepsInput input y
      → KeepsInput input (if b then x else y)
  if_Keeps x y true h k = h
  if_Keeps x y false h k = k

  redrawn-Handled :
      (x : Option Linenoise.State) (s : Session)
      → s.input ≡ input
      → HandledInput input (redrawn x s)
  unfolding redrawn HandledInput
  redrawn-Handled none s h = tt
  redrawn-Handled (some e) s h = h

  show_data-Handled :
      (code : Code) (got : Bytes) (s : Session)
      → s.input ≡ input
      → HandledInput input (show_data code got s)
  unfolding show_data
  show_data-Handled (ok n) got s h =
      if_Handled _ _ (n == 0) (unfold HandledInput in h) (redrawn-Handled _ s h)
  show_data-Handled (err timeout) got s h = unfold HandledInput in h
  show_data-Handled (err dns) got s h = unfold HandledInput in h
  show_data-Handled (err refused) got s h = unfold HandledInput in h
  show_data-Handled (err io) got s h = unfold HandledInput in h

  after_handler-Keeps :
      (x : Handled) → HandledInput input x → KeepsInput input (after_handler x goes)
  unfolding after_handler HandledInput KeepsInput
  after_handler-Keeps (returns carry_on s) h = h
  after_handler-Keeps (returns closed s) h = tt
  after_handler-Keeps (returns failed s) h = tt
  after_handler-Keeps (blocks s) h = tt
  after_handler-Keeps (fault s) h = tt

  pub hang_up-Keeps : (r : Round) (s : Session) → s.input ≡ input → KeepsInput input (hang_up r s)
  unfolding hang_up KeepsInput
  hang_up-Keeps r s h = if_Keeps _ _ r.gone (if_Keeps (goes s) (leaves 0 s) r.sock_in h tt) h

  pub socket_event-Keeps :
      (r : Round) (s : Session) → s.input ≡ input → KeepsInput input (socket_event r s)
  unfolding socket_event handle_socket_data KeepsInput
  socket_event-Keeps r s h =
      if_Keeps _ _ r.sock_in (after_handler-Keeps _ (show_data-Handled _ _ _ h)) h

  pub and_then-same :
      (x : Step) (f g : Session → Step)
      → KeepsInput input x
      → ((t : Session) → t.input ≡ input → f t ≡ g t)
      → and_then x f ≡ and_then x g
  unfolding and_then KeepsInput
  and_then-same (goes t) f g k h = h t k
  and_then-same (leaves code t) f g k h = refl
  and_then-same (stuck t) f g k h = refl
  and_then-same (broken t) f g k h = refl
