-- ===== src/Tempus/Receiver/Reassembly.antt =====
-- The receiver's messages are those that were sent, however the stream is cut.
use cs.Prelude.{
  ℕ, ◌-◌, ◌^◌, ◌<◌, ◌≤◌, ◌≡◌, refl, sym, ap, ◌∙◌, ◌==◌, min, inl, inr, ◌⊎◌, Bool-cases,
  Option-cases, none, some, List, [], ◌∷◌, ◌++◌, length, length-append, length-take, take, drop,
  take-append, drop-append, take-append-drop, arith,
}
use cs.Prelude.Bytes.{le_bytes, length-le_bytes, of_le_bytes-le_bytes}
use cs.Tempus.{Message}
use cs.Tempus.Receiver.{sizeof_message, bytes_of, message_of, Channel, receive_some, receive_all}
use mathlib.Core.List.{append_assoc}

abbrev pub Fits : Message → Type 0
Fits m = (m.sender_rank < 2 ^ 32) × (m.logical_timestamp < 2 ^ 32)

abbrev pub AllFit : List Message → Type 0
AllFit [] = Unit {0}
AllFit (m ∷ ms) = Fits m × AllFit ms

unfoldable pub stream_of : List Message → List ℕ
stream_of [] = []
stream_of (m ∷ ms) = bytes_of m ++ stream_of ms

length-bytes_of : (m : Message) → length (bytes_of m) ≡ 8
unfolding bytes_of
length-bytes_of m =
    rw (length-append (le_bytes 4 m.sender_rank) (le_bytes 4 m.logical_timestamp))
      (rw (length-le_bytes 4 m.sender_rank, length-le_bytes 4 m.logical_timestamp) refl)

message_of-bytes_of : (m : Message) → Fits m → message_of (bytes_of m) ≡ m
unfolding message_of bytes_of
message_of-bytes_of m (hr, ht) =
    let r = le_bytes 4 m.sender_rank in
    let t = le_bytes 4 m.logical_timestamp in
    let front : take 4 (r ++ t) ≡ r =
      ap (λ (k : ℕ). take k (r ++ t)) (sym (length-le_bytes 4 m.sender_rank)) ∙ take-append r t in
    let back : drop 4 (r ++ t) ≡ t =
      ap (λ (k : ℕ). drop k (r ++ t)) (sym (length-le_bytes 4 m.sender_rank)) ∙ drop-append r t in
    rw (front, back)
      (rw (of_le_bytes-le_bytes 4 m.sender_rank hr, of_le_bytes-le_bytes 4 m.logical_timestamp ht)
        refl)

same_prefix :
    (xs ys zs ws : List ℕ) → xs ++ ys ≡ zs ++ ws → length xs ≡ length zs → (xs ≡ zs) × (ys ≡ ws)
same_prefix xs ys zs ws e l = (
  sym (take-append xs ys)
      ∙ ap (take (length xs)) e
      ∙ ap (λ (k : ℕ). take k (zs ++ ws)) l
      ∙ take-append zs ws,
  sym (drop-append xs ys)
      ∙ ap (drop (length xs)) e
      ∙ ap (λ (k : ℕ). drop k (zs ++ ws)) l
      ∙ drop-append zs ws,
)

-- A channel that has still to deliver these messages.
pub record Delivers (c : Channel) (ms : List Message) : Type 0 where
  pub partial : length c.buf < sizeof_message
  pub stream : c.buf ++ c.incoming ≡ stream_of ms

module _ (c : Channel) (ms : List Message) (available : ℕ) (fits : AllFit ms)
    (d : Delivers c ms) where
  abbrev asked : ℕ
  asked = min available (sizeof_message - length c.buf)

  abbrev buf : List ℕ
  buf = c.buf ++ take asked c.incoming

  abbrev left : List ℕ
  left = drop asked c.incoming

  same_stream : buf ++ left ≡ stream_of ms
  same_stream =
      append_assoc c.buf (take asked c.incoming) left
      ∙ ap (λ (k : List ℕ). c.buf ++ k) (take-append-drop asked c.incoming)
      ∙ d.stream

  length-buf_le : length buf ≤ 8
  length-buf_le =
      omega (
        arith,
        length-append c.buf (take asked c.incoming),
        length-take asked c.incoming,
        d.partial,
      )

-- A full buffer holds the next message.
full-next :
    (buf left : List ℕ) (ms : List Message)
    → AllFit ms
    → buf ++ left ≡ stream_of ms
    → length buf ≡ 8
    → (rest : List Message) × (ms ≡ message_of buf ∷ rest) × AllFit rest × (left ≡ stream_of rest)
unfolding stream_of
full-next [] left [] fits e l = absurd (omega arith)
full-next (b ∷ buf) left [] fits e l = cc
full-next buf left (m ∷ ms) (fm, fits) e l =
    let (front, back) =
      same_prefix buf left (bytes_of m) (stream_of ms) e (l ∙ sym (length-bytes_of m)) in
    (
      ms,
      ap (λ (k : Message). k ∷ ms) (sym (ap message_of front ∙ message_of-bytes_of m fm)),
      fits,
      back,
    )

receive_some-Delivers :
    (c : Channel) (ms : List Message) (available : ℕ) (c' : Channel) (out : List Message)
    → AllFit ms
    → Delivers c ms
    → receive_some c available ≡ some (c', out)
    → (rest : List Message) × (ms ≡ out ++ rest) × AllFit rest × Delivers c' rest
unfolding receive_some
receive_some-Delivers c ms available c' out fits d e =
    elim (Bool-cases (length (take (asked c ms available fits d) c.incoming) == 0)) [
      | inl empty ↦ absurd (ground arith)
      | inr some_bytes ↦ elim (Bool-cases (length (buf c ms available fits d) == sizeof_message)) [
        | inl full ↦
            let (rest, same, fits', stream) =
              full-next (buf c ms available fits d) (left c ms available fits d) ms fits
                (same_stream c ms available fits d) (ground arith) in
            let out_is : (c' ≡ record { buf = []; incoming = left c ms available fits d })
                × (out ≡ message_of (buf c ms available fits d) ∷ []) =
              (ground arith, ground arith) in
            (
              rest,
              rw (out_is.1) same,
              fits',
              rw (out_is.0) (record { partial = omega arith; stream = stream }),
            )
        | inr partial ↦
            let out_is : (c' ≡ record {
              buf = buf c ms available fits d;
              incoming = left c ms available fits d;
            })
                × (out ≡ []) =
              (ground arith, ground arith) in
            (
              ms,
              rw (out_is.1) refl,
              fits,
              rw (out_is.0) (record {
                partial = ground (arith, length-buf_le c ms available fits d);
                stream = same_stream c ms available fits d;
              }),
            )
      ]
    ]

-- However a stream of encoded messages is cut into receptions, the messages passed on are the
-- first of those sent, in order and whole, and what the channel has still to deliver encodes the
-- others.
pub receive_all-Delivers :
    (c : Channel) (ms : List Message) (receptions : List ℕ) (c' : Channel) (out : List Message)
    → AllFit ms
    → Delivers c ms
    → receive_all c receptions ≡ some (c', out)
    → (rest : List Message) × (ms ≡ out ++ rest) × Delivers c' rest
unfolding receive_all
receive_all-Delivers c ms [] c' out fits d e = (ms, ground arith, ground arith)
receive_all-Delivers c ms (r ∷ receptions) c' out fits d e =
    elim (Option-cases (receive_some c r)) [
      | inl failed ↦ absurd (ground arith)
      | inr ((c₁, out₁), first) ↦ elim (Option-cases (receive_all c₁ receptions)) [
        | inl failed ↦ absurd (ground arith)
        | inr ((c₂, out₂), later) ↦
            let (rest₁, same₁, fits₁, d₁) = receive_some-Delivers c ms r c₁ out₁ fits d first in
            let (rest₂, same₂, d₂) =
              receive_all-Delivers c₁ rest₁ receptions c₂ out₂ fits₁ d₁ later in
            let result : (c' ≡ c₂) × (out ≡ out₁ ++ out₂) = (ground arith, ground arith) in
            (
              rest₂,
              same₁
                  ∙ ap (λ (k : List Message). out₁ ++ k) same₂
                  ∙ sym (append_assoc out₁ out₂ rest₂)
                  ∙ ap (λ (k : List Message). k ++ rest₂) (sym (result.1)),
              rw (result.0) d₂,
            )
      ]
    ]

-- A reception throws exactly when it brings no byte.
pub receive_some_throws :
    (c : Channel) (available : ℕ)
    → length c.buf < sizeof_message
    → (receive_some c available ≡ none → (available ≡ 0) ⊎ (length c.incoming ≡ 0))
      × ((available ≡ 0) ⊎ (length c.incoming ≡ 0) → receive_some c available ≡ none)
unfolding receive_some
receive_some_throws c available h =
    let l = length-take (min available (sizeof_message - length c.buf)) c.incoming in
    (ground (arith, l), ground (arith, l))
