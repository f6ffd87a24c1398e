-- ===== src/Net/Sendq.antt =====
-- The queue of bytes for the uplink: its room, the order of what send puts on the wire, and how the
-- lines that send_raw frames are read again.
use child.Prelude.{
  ℕ, zero, suc, ◌+◌, ◌<◌, ◌≡◌, ◌⊎◌, inl, inr, refl, ap, Option, none, some, List, [], ◌∷◌, ◌++◌,
  ltb, leb, if◌then◌else◌, length, length-append, Bool-cases, arith, append_assoc, append-nil,
  Option-cases,
}
use child.Strings.{Str, strncpy}
use child.Net.{sendqsize, framed, send_raw, drop_bytes, flush_sendq}

-- What happens to the queue: a message is sent, or the socket takes bytes.
pub data Event : Type 0 where
  write : Str → Event
  flush : (Str → Option ℕ) → Event

-- The bytes of some messages.
unfoldable pub all_framed : List Str → Str
all_framed [] = []
all_framed (text ∷ texts) = framed text ++ all_framed texts

unfoldable pub accepted : Str → Str → List Str
accepted queue text =
    let tmp = framed text in
    if ltb sendqsize (length tmp)
    then []
    else (if leb sendqsize (length tmp + length queue) then [] else text ∷ [])

-- After an error of send the link is given up.
unfoldable pub flushed :
    (Str → Str × Str × List Str) → Option (Str × Str) → Str → Str × Str × List Str
flushed later none queue = ([], queue, [])
flushed later (some (bytes, kept)) queue =
    let (wire, left, texts) = later kept in (bytes ++ wire, left, texts)

-- The bytes on the wire, those left in the queue, and the messages that were not dropped.
unfoldable pub outputs : List Event → Str → Str × Str × List Str
unfolding send_raw flush_sendq accepted flushed
outputs [] queue = ([], queue, [])
outputs (write text ∷ events) queue =
    let (wire, left, texts) = outputs events (send_raw queue text) in
    (wire, left, accepted queue text ++ texts)
outputs (flush sent ∷ events) queue = flushed (outputs events) (flush_sendq sent queue) queue

strncpy-drop_bytes : (n : ℕ) (s : Str) → strncpy n s ++ drop_bytes n s ≡ s
unfolding strncpy drop_bytes
strncpy-drop_bytes zero s = refl
strncpy-drop_bytes (suc n) [] = refl
strncpy-drop_bytes (suc n) (c ∷ s) = ap (λ x. c ∷ x) (strncpy-drop_bytes n s)

flush_sendq-cases :
    (sent : Str → Option ℕ) (queue : Str)
    → (flush_sendq sent queue ≡ none)
      ⊎ ((bytes kept : Str) × (flush_sendq sent queue ≡ some (bytes, kept))
          × (bytes ++ kept ≡ queue))
unfolding flush_sendq
flush_sendq-cases sent [] = inr ([], [], refl, refl)
flush_sendq-cases sent (c ∷ queue) = elim (Option-cases (sent (c ∷ queue))) [
  | inl e ↦ inl (rw e refl)
  | inr (n, e) ↦
      inr (
        strncpy n (c ∷ queue),
        drop_bytes n (c ∷ queue),
        rw e refl,
        strncpy-drop_bytes n (c ∷ queue),
      )
]

-- A message that fits is queued whole; another is dropped.
send_raw-cases :
    (queue text : Str)
    → ((send_raw queue text ≡ queue) × (accepted queue text ≡ []))
      ⊎ ((send_raw queue text ≡ queue ++ framed text)
          × (accepted queue text ≡ text ∷ [])
          × (length (framed text) + length queue < sendqsize))
unfolding send_raw accepted
send_raw-cases queue text = elim (Bool-cases (ltb sendqsize (length (framed text)))) [
  | inl e ↦ inl (rw e refl, rw e refl)
  | inr e ↦ elim (Bool-cases (leb sendqsize (length (framed text) + length queue))) [
    | inl g ↦ inl (rw (e, g) refl, rw (e, g) refl)
    | inr g ↦ inr (rw (e, g) refl, rw (e, g) refl, ground arith)
  ]
]

send_raw-accepted :
    (queue text : Str) → send_raw queue text ≡ queue ++ all_framed (accepted queue text)
unfolding all_framed
send_raw-accepted queue text = elim (send_raw-cases queue text) [
  | inl (e, g) ↦ rw (e, g, append-nil queue) refl
  | inr (e, g, _) ↦ rw (e, g, append-nil (framed text)) refl
]

all_framed-append : (xs ys : List Str) → all_framed (xs ++ ys) ≡ all_framed xs ++ all_framed ys
unfolding all_framed
all_framed-append [] ys = refl
all_framed-append (x ∷ xs) ys = rw (all_framed-append xs ys, append_assoc (framed x)) refl

-- Whatever messages are sent and however many bytes the socket takes at a time, what is on the wire
-- and then in the queue are the queue at first and the messages that were not dropped, whole and in
-- order.
pub outputs-IsFifo :
    (events : List Event) (queue : Str)
    → (outputs events queue).0 ++ (outputs events queue).1
      ≡ queue ++ all_framed (outputs events queue).2
unfolding outputs all_framed flushed
outputs-IsFifo [] queue = rw (append-nil queue) refl
outputs-IsFifo (write text ∷ events) queue =
    rw
      (
        outputs-IsFifo events (send_raw queue text),
        send_raw-accepted queue text,
        all_framed-append (accepted queue text)
            (outputs events (queue ++ all_framed (accepted queue text))).2,
        append_assoc queue (all_framed (accepted queue text)),
      )
      refl
outputs-IsFifo (flush sent ∷ events) queue = elim (flush_sendq-cases sent queue) [
  | inl e ↦ rw (e, append-nil queue) refl
  | inr (bytes, kept, e, all) ↦
      rw (e, append_assoc bytes, outputs-IsFifo events kept, ← append_assoc bytes, all) refl
]

-- send_raw never fills the buffer: a byte is left for the NUL.
pub send_raw-lt :
    (queue text : Str) → length queue < sendqsize → length (send_raw queue text) < sendqsize
send_raw-lt queue text h = elim (send_raw-cases queue text) [
  | inl (e, g) ↦ rw e h
  | inr (e, g, fits) ↦ rw e (omega (arith, length-append queue (framed text)))
]
