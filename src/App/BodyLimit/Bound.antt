-- ===== src/App/BodyLimit/Bound.antt =====
-- The application never receives more than the limit.
use tao_gateway.Base.{
  ℕ, ◌+◌, ◌≤◌, ◌<◌, ◌≡◌, refl, ap, ◌⊎◌, inl, inr, String, true, false, Option, none, List, [], ◌∷◌,
  length, ltb, ltb→lt, ◌∙◌, Bool-cases, arith,
}
use tao_gateway.Base.Int.{ℤ}
use tao_gateway.App.BodyLimit.{
  Message, http_request, other_message, answers, too_large, Limiter, limited_receive, receive_all,
  fresh_limiter, refuse_length, pass_on, limit_request_body_size,
}

-- The bytes of the body's parts.
abbrev pub bytes_of : List Message → ℕ
bytes_of [] = 0
bytes_of (other_message ∷ messages) = bytes_of messages
bytes_of (http_request body more_body ∷ messages) = length body + bytes_of messages

over_limit :
    (messages : List Message) (l : Limiter)
    → 1_000_000 < l.bytes_received
    → bytes_of (receive_all messages l).0 ≡ 0
unfolding receive_all limited_receive
over_limit [] l h = refl
over_limit (other_message ∷ messages) l h = over_limit messages l h
over_limit (http_request body more ∷ messages) l h = ground (
  arith,
  over_limit messages
      (record { bytes_received = l.bytes_received + length body; body_too_large = true }),
)

bounded :
    (messages : List Message) (l : Limiter)
    → l.bytes_received ≤ 1_000_000
    → l.bytes_received + bytes_of (receive_all messages l).0 ≤ 1_000_000
unfolding receive_all limited_receive
bounded [] l h = omega arith
bounded (other_message ∷ messages) l h = bounded messages l h
bounded (http_request body more ∷ messages) l h =
    let received = l.bytes_received + length body in
    ground (
      arith,
      over_limit messages (record { bytes_received = received; body_too_large = true }),
      bounded messages (record { bytes_received = received; body_too_large = l.body_too_large }),
    )

flag_stays :
    (messages : List Message) (l : Limiter)
    → l.body_too_large ≡ true
    → (receive_all messages l).1.body_too_large ≡ true
unfolding receive_all limited_receive
flag_stays [] l h = h
flag_stays (other_message ∷ messages) l h = flag_stays messages l h
flag_stays (http_request body more ∷ messages) l h =
    let received = l.bytes_received + length body in
    ground (
      arith,
      flag_stays messages (record { bytes_received = received; body_too_large = true }),
      flag_stays messages (record { bytes_received = received; body_too_large = l.body_too_large }),
    )

small :
    (messages : List Message) (l : Limiter)
    → l.bytes_received + bytes_of messages ≤ 1_000_000
    → ((receive_all messages l).0 ≡ messages)
      × ((receive_all messages l).1.body_too_large ≡ l.body_too_large)
unfolding receive_all limited_receive
small [] l h = (refl, refl)
small (other_message ∷ messages) l h =
    let rest = small messages l h in (ap (λ m. other_message ∷ m) rest.0, rest.1)
small (http_request body more ∷ messages) l h =
    let received = l.bytes_received + length body in
    let within : ltb 1_000_000 received ≡ false = ground arith in
    let rest =
      small messages (record { bytes_received = received; body_too_large = l.body_too_large })
        (omega arith) in
    rw within (ap (λ m. http_request body more ∷ m) rest.0, rest.1)

large :
    (messages : List Message) (l : Limiter)
    → 1_000_000 < l.bytes_received + bytes_of messages
    → l.bytes_received ≤ 1_000_000
    → (receive_all messages l).1.body_too_large ≡ true
unfolding receive_all limited_receive
large [] l h b = absurd (omega arith)
large (other_message ∷ messages) l h b = large messages l h b
large (http_request body more ∷ messages) l h b =
    let received = l.bytes_received + length body in
    ground (
      arith,
      flag_stays messages (record { bytes_received = received; body_too_large = true }),
      large messages (record { bytes_received = received; body_too_large = l.body_too_large }),
    )

passed :
    {R : Type 0} (int_of : String → Option ℤ) (call_next : List Message → R)
    (content_length : Option String) (read : List Message)
    → refuse_length {R = R} int_of content_length ≡ none
    → limit_request_body_size int_of call_next content_length read
      ≡ pass_on call_next (receive_all read fresh_limiter)
unfolding limit_request_body_size
passed int_of call_next content_length read h = rw (h, limit_request_body_size) refl

pass_refused :
    {R : Type 0} (call_next : List Message → R) (p : List Message × Limiter)
    → p.1.body_too_large ≡ true
    → pass_on call_next p ≡ too_large
pass_refused call_next (messages, l) h = rw h refl

pass_answered :
    {R : Type 0} (call_next : List Message → R) (p : List Message × Limiter)
    → p.1.body_too_large ≡ false
    → pass_on call_next p ≡ answers (call_next p.0)
pass_answered call_next (messages, l) h = rw h refl

-- Let the length that the request declares be accepted, or not be declared. However the body is cut
-- into parts, the application receives at most 1,000,000 bytes of it. If the parts have no more, the
-- application receives them unchanged and its response is the answer; if they have more, the answer
-- is the refusal of the status 413.
pub limit_request_body_size_lem :
    {R : Type 0} (int_of : String → Option ℤ) (call_next : List Message → R)
    (content_length : Option String) (read : List Message)
    → refuse_length {R = R} int_of content_length ≡ none
    → let response = limit_request_body_size int_of call_next content_length read in
      (bytes_of (receive_all read fresh_limiter).0 ≤ 1_000_000)
      × (((bytes_of read ≤ 1_000_000) × (response ≡ answers (call_next read)))
          ⊎ ((1_000_000 < bytes_of read) × (response ≡ too_large)))
limit_request_body_size_lem int_of call_next content_length read h =
    let p = receive_all read fresh_limiter in
    let ends = passed int_of call_next content_length read h in
    (
      omega (arith, bounded read fresh_limiter (omega arith)),
      elim (Bool-cases (ltb 1_000_000 (bytes_of read))) [
        | inl more ↦
            let over : 1_000_000 < bytes_of read = ltb→lt _ _ more in
            inr (
              over,
              ends
                  ∙ pass_refused call_next p (large read fresh_limiter (omega arith) (omega arith)),
            )
        | inr fits ↦
            let within : bytes_of read ≤ 1_000_000 = ground arith in
            let same = small read fresh_limiter (omega arith) in
            inl (
              within,
              ends ∙ pass_answered call_next p same.1 ∙ ap (λ m. answers (call_next m)) same.0,
            )
      ],
    )
