-- ===== src/Vhost/Reply.antt =====
-- Which replies the client gets, and when.
use libvhost_user.Base.{
  ℕ, ◌<◌, ◌≡◌, ◌⊎◌, refl, ap, sym, subst, ◌∙◌, Bool, true, false, ◌||◌, ◌&&◌, Option, none, some,
  ltb, ◌==◌, ℤ, arith, inl, inr, Bool-cases, is_neg, enotsup, [],
}
use libvhost_user.Base.{pos as ok}
use libvhost_user.Ram.Laws.{read64-write64}
use libvhost_user.Vhost.Protocol.{
  Message, message_f_reply_ack, protocol_f_reply_ack, has_feature, get_u64, set_u64,
}
use libvhost_user.Vhost.Device.{VhostDev}
use libvhost_user.Vhost.MemTable.{Mmap}
use libvhost_user.Vhost.Handlers.{Answer, answer}
use libvhost_user.Vhost.Answers.{call_handler-IsAnswer}
use libvhost_user.Vhost.Negotiated.{negotiated, call_handler-negotiated}
use libvhost_user.Vhost.Sent.{send_reply-reply}
use libvhost_user.Vhost.Dispatch.{
  num_handlers, call_handler, message_assumes_reply, must_reply_ack, Handled, reset_after,
  ack_reply, finish_message, finish_result, handle_message,
}

-- GET_FEATURES, GET_VRING_BASE, GET_PROTOCOL_FEATURES, GET_QUEUE_NUM and GET_CONFIG
abbrev pub IsQuestion : ℕ → Type 0
IsQuestion request =
    (request ≡ 1) ⊎ ((request ≡ 11) ⊎ ((request ≡ 15) ⊎ ((request ≡ 17) ⊎ (request ≡ 24))))

-- The client asks for an acknowledgement, and REPLY_ACK has been negotiated, if only by this message.
abbrev pub IsAckAsked : VhostDev → Message → Type 0
IsAckAsked dev msg =
    (has_feature (negotiated dev msg) protocol_f_reply_ack ≡ true)
    × (has_feature msg.flags message_f_reply_ack ≡ true)

-- The reply to a message, if any. A message fails when it is not a request, or its handler fails;
-- `a` is what the handler leaves.
pub data IsReplied (mmap : Mmap) (fds : ℕ → ℤ) (dev : VhostDev) (msg : Message) (h : Handled)
    : Type 0 where
  malformed : (msg.request ≡ 0) ⊎ (41 < msg.request) → h.reply ≡ none → IsReplied mmap fds dev msg h
  failed :
      (a : Answer)
      → call_handler mmap fds dev msg ≡ some a
      → is_neg a.res ≡ true
      → h.reply ≡ none
      → IsReplied mmap fds dev msg h
  told :
      (a : Answer)
      → call_handler mmap fds dev msg ≡ some a
      → a.res ≡ ok 0
      → IsQuestion msg.request
      → a.msg.request ≡ msg.request
      → h.reply ≡ some (record a.msg { flags = 5 })
      → IsReplied mmap fds dev msg h
  acknowledged :
      (a : Answer) (m : Message)
      → call_handler mmap fds dev msg ≡ some a
      → a.res ≡ ok 0
      → (¬ IsQuestion msg.request)
      → IsAckAsked dev msg
      → h.reply ≡ some m
      → m.request ≡ msg.request
      → m.flags ≡ 5
      → m.size ≡ 8
      → get_u64 m ≡ 0
      → IsReplied mmap fds dev msg h
  silent :
      (a : Answer)
      → call_handler mmap fds dev msg ≡ some a
      → a.res ≡ ok 0
      → (¬ IsQuestion msg.request)
      → (¬ IsAckAsked dev msg)
      → h.reply ≡ none
      → IsReplied mmap fds dev msg h

ack_reply-u64 : (a : Answer) → a.res ≡ ok 0 → get_u64 (record (ack_reply a) { flags = 5 }) ≡ 0
unfolding get_u64 set_u64
ack_reply-u64 a e = rw e (read64-write64 a.msg.payload 0 0 (omega arith))

-- Two of the types that assume a reply have no handler.
no_handler :
    (mmap : Mmap) (fds : ℕ → ℤ) (dev : VhostDev) (msg : Message)
    → (msg.request ≡ 6) ⊎ (msg.request ≡ 31)
    → call_handler mmap fds dev msg ≡ some (answer enotsup dev msg)
unfolding call_handler
no_handler mmap fds dev msg e = ground arith

module _ (mmap : Mmap) (can_send : Message → Bool) (fds : ℕ → ℤ) (dev : VhostDev) (msg : Message)
    (a : Answer) (called : call_handler mmap fds dev msg ≡ some a) where
  assumes-cases :
      a.res ≡ ok 0
      → ((message_assumes_reply a.msg ≡ true) × IsQuestion msg.request)
        ⊎ ((message_assumes_reply a.msg ≡ false) × (¬ IsQuestion msg.request))
  unfolding message_assumes_reply
  assumes-cases done =
      let same = ((call_handler-IsAnswer mmap fds dev msg).each a called).request_kept in
      let handled : ¬ ((msg.request ≡ 6) ⊎ (msg.request ≡ 31)) = λ e.
        let gone : some a ≡ some (answer enotsup dev msg) =
          sym called ∙ no_handler mmap fds dev msg e in
        ground (arith, gone, done) in
      ground (arith, same, handled)

  ack-cases :
      a.res ≡ ok 0
      → ((must_reply_ack a.dev a.msg ≡ true) × IsAckAsked dev msg)
        ⊎ ((must_reply_ack a.dev a.msg ≡ false) × (¬ IsAckAsked dev msg))
  unfolding must_reply_ack
  ack-cases done =
      let same = ((call_handler-IsAnswer mmap fds dev msg).each a called).flags_kept in
      let known =
        call_handler-negotiated mmap fds dev msg a called (ap (λ (r : ℤ). is_neg r) done) in
      rw (known, same)
        (elim (Bool-cases (
          has_feature (negotiated dev msg) protocol_f_reply_ack
          && has_feature msg.flags message_f_reply_ack)) [
            | inl t ↦ inl (t, (ground (arith, t), ground (arith, t)))
            | inr t ↦ inr (t, λ (x, y). ground (arith, t, x, y))
          ])

  finish_message-IsReplied : IsReplied mmap fds dev msg (finish_message can_send a)
  unfolding finish_message reset_after set_u64
  finish_message-IsReplied =
      let p = (call_handler-IsAnswer mmap fds dev msg).each a called in
      elim (Bool-cases (is_neg a.res)) [
        | inl t ↦ failed a called t (rw t refl)
        | inr t ↦
            let done : a.res ≡ ok 0 = ground (arith, p.res_ok, t) in
            elim (assumes-cases done) [
              | inl (u, question) ↦
                  told a called done question p.request_kept
                    (rw (t, u) (send_reply-reply can_send a.dev a.msg a.calls))
              | inr (u, other) ↦ elim (ack-cases done) [
                | inl (x, asked) ↦
                    acknowledged a (record (ack_reply a) { flags = 5 }) called done other asked
                      (rw (t, u, x) (send_reply-reply can_send a.dev (ack_reply a) a.calls))
                      p.request_kept refl refl (ack_reply-u64 a done)
                | inr (x, unasked) ↦ silent a called done other unasked (rw (t, u, x) refl)
              ]
            ]
      ]

reset_silent : (dev : VhostDev) → (reset_after dev none []).reply ≡ none
unfolding reset_after
reset_silent dev = refl

finish_result-IsReplied :
    (mmap : Mmap) (can_send : Message → Bool) (fds : ℕ → ℤ) (dev : VhostDev) (msg : Message)
    (h : Handled) (o : Option Answer)
    → call_handler mmap fds dev msg ≡ o
    → finish_result can_send o ≡ some h
    → IsReplied mmap fds dev msg h
unfolding finish_result
finish_result-IsReplied mmap can_send fds dev msg h none called e = absurd (ground arith)
finish_result-IsReplied mmap can_send fds dev msg h (some a) called e =
    let same : finish_message can_send a ≡ h = cc in
    subst {A = Handled} (IsReplied mmap fds dev msg) same
      (finish_message-IsReplied mmap can_send fds dev msg a called)

-- When a message is handled, its reply is exactly this. A question, whose handler succeeds, is answered
-- with the message as the handler left it. Another message whose handler succeeds is acknowledged with
-- the value 0 if the client asked for it and REPLY_ACK has been negotiated, and has no reply otherwise.
-- A message that is malformed or fails has none, also where an acknowledgement was asked for. Each
-- reply is for the request that was sent, and marked as a reply of version 1.
pub handle_message-IsReplied :
    (mmap : Mmap) (can_send : Message → Bool) (fds : ℕ → ℤ) (dev : VhostDev) (msg : Message)
    (h : Handled)
    → handle_message mmap can_send fds dev msg ≡ some h
    → IsReplied mmap fds dev msg h
unfolding handle_message
handle_message-IsReplied mmap can_send fds dev msg h e =
    elim (Bool-cases (msg.request == 0 || ltb num_handlers msg.request)) [
      | inl t ↦
          let reset : some (reset_after dev none []) ≡ some h = rw t at e in
          let same : reset_after dev none [] ≡ h = cc in
          malformed (ground (arith, t))
            (ap (λ (x : Handled). x.reply) (sym same) ∙ reset_silent dev)
      | inr t ↦ elim (Bool-cases (msg.request == num_handlers)) [
        | inl u ↦ absurd (ground (arith, e, t, u))
        | inr u ↦
            finish_result-IsReplied mmap can_send fds dev msg h (call_handler mmap fds dev msg) refl
              (rw (t, u) at e)
      ]
    ]
