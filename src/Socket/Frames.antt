-- ===== src/Socket/Frames.antt =====
-- socket_read_exact and socket_read_framed over TCP segments.
use tcp_client.Base.{
  ℕ, zero, suc, ◌+◌, ◌-◌, ◌*◌, ◌≤◌, ◌<◌, ◌≡◌, ◌≢◌, refl, sym, ap, ◌∙◌, arith, true, some, List, [],
  ◌∷◌, ◌++◌, append-nil, append_assoc, Bytes, All, length, length-append, length-take, length-drop,
  take, drop, take-append-drop, take-append_le, drop-append_le, leb, if◌then◌else◌, join_bytes_lem,
  ok,
}
use tcp_client.Socket.Read.{
  Reply, poll_timeout, poll_failed, received, recv_failed, read_valid, socket_read, Exact, ends,
  exact_loop, socket_read_exact, header_length, payload_code, framed_payload, framed_body,
  framed_header, socket_read_framed,
}

-- An answer that hands over something.
abbrev pub IsData : Reply → Type 0
IsData (received n) = n ≢ 0
IsData _ = ⊥

exact_loop-read :
    (len : ℕ) (acc : Bytes) (r : Reply) (replies : List Reply) (incoming : Bytes) (n : ℕ)
    (got later : Bytes)
    → length acc < len
    → socket_read true (len - length acc) r incoming
      ≡ record { code = ok n; got = got; incoming = later }
    → n ≢ 0
    → exact_loop len acc (r ∷ replies) incoming ≡ exact_loop len (acc ++ got) replies later
unfolding exact_loop
exact_loop-read len acc r replies incoming n got later more read some_bytes = ground arith

exact_loop_end :
    (len : ℕ) (acc : Bytes) (replies : List Reply) (incoming : Bytes)
    → length acc ≡ len
    → exact_loop len acc replies incoming ≡ ends (some (ok len)) acc incoming replies
unfolding exact_loop
exact_loop_end len acc [] incoming e = ground arith
exact_loop_end len acc (r ∷ replies) incoming e = ground arith

-- One answer hands over the first bytes of what is wanted, at least one of them.
socket_read_part :
    (k len : ℕ) (want more : Bytes)
    → len ≡ length want
    → 0 < len
    → let m = if leb (suc k) len then suc k else len in
      socket_read true len (received (suc k)) (want ++ more)
      ≡ record { code = ok m; got = take m want; incoming = drop m want ++ more }
unfolding socket_read read_valid
socket_read_part k len want more e pos =
    let m : ℕ = if leb (suc k) len then suc k else len in
    let fits : m ≤ length want = ground arith in
    rw (take-append_le m want more fits, drop-append_le m want more fits, length-take m want fits)

-- `want` is what the loop still has to read; `left` answers are not used up.
exact_loop_lem :
    (replies : List Reply) (want acc more : Bytes) (len left : ℕ)
    → All IsData replies
    → len ≡ length acc + length want
    → length want + left ≤ length replies
    → (rs : List Reply) × (exact_loop len acc replies (want ++ more)
        ≡ ends (some (ok len)) (acc ++ want) more rs)
      × All IsData rs
      × (left ≤ length rs)
exact_loop_lem replies [] acc more len left live size enough = (
  replies,
  exact_loop_end len acc replies more (omega arith)
      ∙ ap (λ b. ends (some (ok len)) b more replies) (sym (append-nil acc)),
  live,
  omega arith,
)
exact_loop_lem [] (w ∷ want) acc more len left live size enough = absurd (omega arith)
exact_loop_lem (received zero ∷ replies) (w ∷ want) acc more len left live size enough =
    absurd (live.0 refl)
exact_loop_lem (received (suc k) ∷ replies) (w ∷ want) acc more len left live size enough =
    let asked : ℕ = len - length acc in
    let same : asked ≡ length (w ∷ want) = omega arith in
    let m : ℕ = if leb (suc k) asked then suc k else asked in
    let some_bytes : m ≢ 0 = ground arith in
    let fits : m ≤ length (w ∷ want) = ground arith in
    let got = take m (w ∷ want) in
    let rest = drop m (w ∷ want) in
    let read = socket_read_part k asked (w ∷ want) more same (omega arith) in
    let (rs, e, h, l) =
      exact_loop_lem replies rest (acc ++ got) more len left live.1
        (omega
          (arith, length-append acc got, length-take m (w ∷ want) fits, length-drop m (w ∷ want)))
        (omega (arith, length-drop m (w ∷ want))) in
    (
      rs,
      exact_loop-read len acc (received (suc k)) replies (w ∷ (want ++ more)) m got (rest ++ more)
            (omega arith) read some_bytes
          ∙ e
          ∙ ap (λ b. ends (some (ok len)) b more rs)
              (append_assoc acc got rest ∙ ap (λ t. acc ++ t) (take-append-drop m (w ∷ want))),
      h,
      l,
    )
exact_loop_lem (poll_timeout ∷ replies) (w ∷ want) acc more len left live size enough =
    absurd live.0
exact_loop_lem (poll_failed x ∷ replies) (w ∷ want) acc more len left live size enough =
    absurd live.0
exact_loop_lem (recv_failed x ∷ replies) (w ∷ want) acc more len left live size enough =
    absurd live.0

-- However the kernel cuts up the stream, socket_read_exact returns `len` with the first `len` bytes
-- of it in the buffer, and leaves the rest, if at least `len` answers come and each hands over
-- something.
pub socket_read_exact_lem :
    (want more : Bytes) (replies : List Reply)
    → All IsData replies
    → length want ≤ length replies
    → (rs : List Reply) × (socket_read_exact true (length want) replies (want ++ more)
        ≡ ends (some (ok (length want))) want more rs)
unfolding socket_read_exact
socket_read_exact_lem want more replies live enough =
    let (rs, e, h, l) =
      exact_loop_lem replies want [] more (length want) 0 live (omega arith) (omega arith) in
    (rs, e)

framed_body-some :
    (max : ℕ) (header incoming : Bytes) (replies : List Reply) (n : ℕ)
    → header_length header ≡ n
    → 2 + n ≤ max
    → 0 < n
    → framed_body max (ends (some (ok 2)) header incoming replies)
      ≡ framed_payload n header (socket_read_exact true n replies incoming)
unfolding framed_body
framed_body-some max header incoming replies n e fits pos = ground arith

framed_payload_ok :
    (n : ℕ) (header want more : Bytes) (rs : List Reply)
    → framed_payload n header (ends (some (ok n)) want more rs)
      ≡ ends (some (ok (2 + n))) (header ++ want) more rs
unfolding framed_payload payload_code
framed_payload_ok n header want more rs = ground arith

framed_first :
    (max : ℕ) (replies : List Reply) (incoming : Bytes) (h : Exact)
    → 2 ≤ max
    → socket_read_exact true 2 replies incoming ≡ ends (some (ok 2)) h.buf h.incoming h.replies
    → socket_read_framed true max replies incoming
      ≡ framed_body max (ends (some (ok 2)) h.buf h.incoming h.replies)
unfolding socket_read_framed framed_header
framed_first max replies incoming h room e = ground arith

framed_body_lem :
    (max hi lo : ℕ) (payload more : Bytes) (replies : List Reply)
    → hi < 256
    → lo < 256
    → length payload ≡ hi * 256 + lo
    → 2 + length payload ≤ max
    → All IsData replies
    → length payload ≤ length replies
    → (rs : List Reply) × (framed_body max
          (ends (some (ok 2)) (hi ∷ lo ∷ []) (payload ++ more) replies)
        ≡ ends (some (ok (2 + length payload))) (hi ∷ lo ∷ payload) more rs)
framed_body_lem max hi lo [] more replies h k size fits live enough =
    let l = join_bytes_lem hi lo h k in (replies, unfold framed_body header_length in ground arith)
framed_body_lem max hi lo (p ∷ payload) more replies h k size fits live enough =
    let l : header_length (hi ∷ lo ∷ []) ≡ length (p ∷ payload) =
      unfold header_length in omega (arith, join_bytes_lem hi lo h k) in
    let (rs, e) = socket_read_exact_lem (p ∷ payload) more replies live enough in
    (
      rs,
      framed_body-some max (hi ∷ lo ∷ []) _ replies _ l fits (omega arith)
          ∙ ap (framed_payload (length (p ∷ payload)) (hi ∷ lo ∷ [])) e
          ∙ framed_payload_ok (length (p ∷ payload)) (hi ∷ lo ∷ []) (p ∷ payload) more rs,
    )

-- A frame with a two-byte length in front is read as a whole, however the kernel cuts up the stream:
-- socket_read_framed returns the length of the frame, the buffer holds the frame, and what follows
-- it is left for the next read; if the frame fits the buffer, as many answers come as the frame has
-- bytes, and each hands over something.
pub socket_read_framed_lem :
    (max hi lo : ℕ) (payload more : Bytes) (replies : List Reply)
    → hi < 256
    → lo < 256
    → length payload ≡ hi * 256 + lo
    → 2 + length payload ≤ max
    → All IsData replies
    → 2 + length payload ≤ length replies
    → (rs : List Reply) × (socket_read_framed true max replies (hi ∷ lo ∷ (payload ++ more))
        ≡ ends (some (ok (2 + length payload))) (hi ∷ lo ∷ payload) more rs)
unfolding socket_read_exact
socket_read_framed_lem max hi lo payload more replies h k size fits live enough =
    let (rs₁, e₁, live₁, left₁) =
      exact_loop_lem replies (hi ∷ lo ∷ []) [] (payload ++ more) 2 (length payload) live
        (omega arith) (omega arith) in
    let (rs, e) = framed_body_lem max hi lo payload more rs₁ h k size fits live₁ left₁ in
    let first = ends (some (ok 2)) (hi ∷ lo ∷ []) (payload ++ more) rs₁ in
    (rs, framed_first max replies (hi ∷ lo ∷ (payload ++ more)) first (omega arith) e₁ ∙ e)
