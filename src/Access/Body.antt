-- ===== src/Access/Body.antt =====
-- `_receive_with_body_limit` of api/access.py of src/planagent. Bytes are numbers.
use mathlib.Core.List.{append_assoc}
use ming_jian.Base.{
  ℕ, ◌≡◌, refl, ◌∙◌, Bool, true, false, List, [], ◌∷◌, ◌++◌, Option, none, some, arith, ltb,
  if◌then◌else◌, length, length-append, Bool-cases, inl, inr,
}

-- An ASGI message: a piece of the body, with `more_body`.
pub data Message : Type 0 where
  disconnect : Message
  request : List ℕ → Bool → Message

-- `replays` has the message that is replayed first and those that follow it. `out_of_messages`
-- stands for a client that sends no further message.
pub data Received : Type 0 where
  replays : Message → List Message → Received
  too_large out_of_messages : Received

-- The loop, with the body read so far.
unfoldable pub receive_loop : ℕ → List ℕ → List Message → Received
receive_loop limit body [] = out_of_messages
receive_loop limit body (disconnect ∷ ms) = replays disconnect ms
receive_loop limit body (request chunk more ∷ ms) =
    let body' = body ++ chunk in
    let rest = receive_loop limit body' ms in
    if ltb limit (length body')
    then too_large
    else if more
    then rest
    else replays (request body' false) ms

abbrev pub declared_too_large : ℕ → Option ℕ → Bool
declared_too_large limit none = false
declared_too_large limit (some n) = ltb limit n

-- The content length that the client declares, if it is a number, is tested first.
unfoldable pub receive_body : ℕ → Option ℕ → List Message → Received
unfolding receive_loop
receive_body limit declared ms =
    if declared_too_large limit declared then too_large else receive_loop limit [] ms

-- A body in pieces, the last one marked by `more_body` false.
abbrev pub pieces : List (List ℕ) → List ℕ → List Message → List Message
pieces [] last rest = request last false ∷ rest
pieces (c ∷ cs) last rest = request c true ∷ pieces cs last rest

abbrev pub joined : List (List ℕ) → List ℕ → List ℕ
joined [] last = last
joined (c ∷ cs) last = c ++ joined cs last

loop-pieces :
    (limit : ℕ) (body : List ℕ) (cs : List (List ℕ)) (last : List ℕ) (rest : List Message)
    → receive_loop limit body (pieces cs last rest) ≡ (
        if ltb limit (length (body ++ joined cs last))
        then too_large
        else replays (request (body ++ joined cs last) false) rest)
unfolding receive_loop
loop-pieces limit body [] last rest = refl
loop-pieces limit body (c ∷ cs) last rest =
    let ih = loop-pieces limit (body ++ c) cs last rest in
    elim (Bool-cases (ltb limit (length (body ++ c)))) [
      | inl over ↦ rw over (
          ground (
            arith,
            over,
            length-append body c,
            length-append c (joined cs last),
            length-append body (c ++ joined cs last),
          ))
      | inr under ↦ rw under (ih ∙ rw (append_assoc body c (joined cs last)))
    ]

-- A body whose declared length, if there is one, is within the limit is handed to the application
-- as one piece, unchanged and followed by what the client sends next, if its bytes are within the
-- limit; otherwise it is refused.
pub body_exact :
    (limit : ℕ) (declared : Option ℕ) (cs : List (List ℕ)) (last : List ℕ) (rest : List Message)
    → declared_too_large limit declared ≡ false
    → receive_body limit declared (pieces cs last rest) ≡ (
        if ltb limit (length (joined cs last))
        then too_large
        else replays (request (joined cs last) false) rest)
unfolding receive_body
body_exact limit declared cs last rest small = rw small (loop-pieces limit [] cs last rest)
