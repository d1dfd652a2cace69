-- ===== src/Oneshot/Wrote.antt =====
-- How much of a text the parts of a round of the one-shot mode write to stdout.
use tcp_client.Base.{
  ℕ, zero, suc, ◌≡◌, refl, sym, ap, ◌∙◌, Bool, true, false, List, [], ◌∷◌, ◌++◌, append-nil,
  append_assoc, Bytes, take, drop, take-append-drop, ◌==◌, if◌then◌else◌, Bool-cases, inl, inr,
}
use tcp_client.Cli.Args.{Config}
use tcp_client.Socket.Codes.{eintr, is_socket_wouldblock}
use tcp_client.Oneshot.Stdout.{Write, wrote, write_failed, write_all_fd}
use tcp_client.Oneshot.Loop.{
  Input, bytes, closed, failed, Send, sent, send_failed, Round, take_line, read_stdin, take_sent,
  send_more, State, Step, goes, exits, and_then, up_to, part_of,
}

-- `text` begins with `part`, and is no longer where `whole` holds.
abbrev pub Begins : (whole : Type 0) → Bytes → Bytes → Type 0
Begins whole text part = (left : Bytes) × (text ≡ part ++ left) × (whole → left ≡ [])

pub Begins-same : {P : Type 0} (text : Bytes) → Begins P text text
Begins-same text = ([], sym (append-nil text), λ p. refl)

-- What write_all_fd has written, and all of it where it succeeds.
pub write_all_fd-Begins :
    (text : Bytes) (writes : List Write)
    → Begins ((write_all_fd text writes).0 ≡ true) text (write_all_fd text writes).1
unfolding write_all_fd
write_all_fd-Begins [] writes = ([], refl, λ p. refl)
write_all_fd-Begins (b ∷ rest) [] = Begins-same (b ∷ rest)
write_all_fd-Begins (b ∷ rest) (wrote zero ∷ writes) = (b ∷ rest, refl, λ p. absurd (cc))
write_all_fd-Begins (b ∷ rest) (wrote (suc n) ∷ writes) =
    let (left, split, whole) = write_all_fd-Begins (drop n rest) writes in
    (
      left,
      ap (λ t. b ∷ t)
          (sym (take-append-drop n rest)
            ∙ ap (λ t. take n rest ++ t) split
            ∙ sym (append_assoc (take n rest) _ left)),
      whole,
    )
write_all_fd-Begins (b ∷ rest) (write_failed e ∷ writes) = elim (Bool-cases (e == eintr)) [
  | inl again ↦ rw again (write_all_fd-Begins (b ∷ rest) writes)
  | inr failing ↦ rw failing (b ∷ rest, refl, λ p. absurd (cc))
]

up_to-Begins : (t : ℕ) (text : Bytes) → Begins ((up_to t text).1 ≡ false) text (up_to t text).0
unfolding up_to
up_to-Begins t [] = ([], refl, λ p. refl)
up_to-Begins t (b ∷ rest) =
    let (left, split, whole) = up_to-Begins t rest in
    elim (Bool-cases (b == t)) [
      | inl e ↦ rw e (rest, refl, λ p. absurd (cc))
      | inr e ↦ rw e (left, ap (λ l. b ∷ l) split, whole)
    ]

pub part_of-Begins :
    (c : Config) (text : Bytes) → Begins ((part_of c text).1 ≡ false) text (part_of c text).0
unfolding part_of
part_of-Begins c text = elim (Bool-cases c.has_term_char) [
  | inl e ↦ rw e (up_to-Begins c.term_char text)
  | inr e ↦ rw e (Begins-same text)
]

-- A step has written a part of `text`, and all of it where the loop goes on.
unfoldable pub Wrote : Bytes → Step → Type 0
Wrote text (goes t) = Begins (t.socket_eof ≡ false) text t.out
Wrote text (exits code t) = Begins ⊥ text t.out

-- A step writes nothing.
unfoldable pub IsMute : State → Step → Type 0
IsMute s (goes t) = (t.out ≡ s.out) × (t.socket_eof ≡ s.socket_eof)
IsMute s (exits code t) = t.out ≡ s.out

pub goes-Wrote : (s : State) → Wrote s.out (goes s)
unfolding Wrote
goes-Wrote s = Begins-same s.out

pub exits-Wrote : (code : ℕ) (s : State) → Wrote s.out (exits code s)
unfolding Wrote
exits-Wrote code s = Begins-same s.out

pub if_Wrote :
    (text : Bytes) (x y : Step) (b : Bool)
    → Wrote text x
    → Wrote text y
    → Wrote text (if b then x else y)
if_Wrote text x y true hx hy = hx
if_Wrote text x y false hx hy = hy

pub if_IsMute :
    (s : State) (x y : Step) (b : Bool) → IsMute s x → IsMute s y → IsMute s (if b then x else y)
if_IsMute s x y true hx hy = hx
if_IsMute s x y false hx hy = hy

pub mute-Wrote :
    (text : Bytes) (s : State) (x : Step) → Wrote text (goes s) → IsMute s x → Wrote text x
unfolding Wrote IsMute
mute-Wrote text s (goes t) (left, split, whole) (out, eof) =
    (left, split ∙ ap (λ o. o ++ left) (sym out), λ p. whole (sym eof ∙ p))
mute-Wrote text s (exits code t) (left, split, whole) out =
    (left, split ∙ ap (λ o. o ++ left) (sym out), λ p. absurd p)

pub and_then-Wrote :
    (text : Bytes) (x : Step) (f : State → Step)
    → Wrote text x
    → ((s : State) → IsMute s (f s))
    → Wrote text (and_then x f)
unfolding and_then
and_then-Wrote text (goes s) f h mute = mute-Wrote text s (f s) h (mute s)
and_then-Wrote text (exits code s) f h mute = unfold Wrote in h

IsMute-trans : (s t : State) (x : Step) → IsMute s (goes t) → IsMute t x → IsMute s x
unfolding IsMute
IsMute-trans s t (goes u) h k = (k.0 ∙ h.0, k.1 ∙ h.1)
IsMute-trans s t (exits code u) h k = k ∙ h.0

pub and_then-IsMute :
    (s : State) (x : Step) (f : State → Step)
    → IsMute s x
    → ((t : State) → IsMute t (f t))
    → IsMute s (and_then x f)
unfolding and_then
and_then-IsMute s (goes t) f h mute = IsMute-trans s t (f t) h (mute t)
and_then-IsMute s (exits code t) f h mute = unfold IsMute in h

goes-IsMute : (s : State) → IsMute s (goes s)
unfolding IsMute
goes-IsMute s = (refl, refl)

take_line-IsMute : (i : Input) (s : State) → IsMute s (take_line i s)
unfolding take_line IsMute
take_line-IsMute (bytes b rest) s = (refl, refl)
take_line-IsMute closed s = (refl, refl)
take_line-IsMute (failed e) s = if_IsMute s _ _ (is_socket_wouldblock e) (refl, refl) refl

pub read_stdin-IsMute : (asked : Bool) (r : Round) (s : State) → IsMute s (read_stdin asked r s)
unfolding read_stdin
read_stdin-IsMute asked r s = if_IsMute s _ _ _ (take_line-IsMute r.read s) (goes-IsMute s)

take_sent-IsMute : (x : Send) (s : State) → IsMute s (take_sent x s)
unfolding take_sent IsMute
take_sent-IsMute (sent n) s = (refl, refl)
take_sent-IsMute (send_failed e) s = if_IsMute s _ _ (is_socket_wouldblock e) (refl, refl) refl

pub send_more-IsMute : (r : Round) (s : State) → IsMute s (send_more r s)
unfolding send_more
send_more-IsMute r s = if_IsMute s _ _ _ (take_sent-IsMute r.send s) (goes-IsMute s)
