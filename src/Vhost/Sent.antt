-- ===== src/Vhost/Sent.antt =====
-- Which reply `handle_message` sends.
use libvhost_user.Base.{
  ℕ, ◌≡◌, ◌⊎◌, refl, ap, ◌∙◌, Bool, true, false, ◌||◌, Option, none, some, List, [], ltb, ◌==◌, ℤ,
  arith, inl, inr, Bool-cases, is_neg,
}
use libvhost_user.System.{Call}
use libvhost_user.Vhost.Protocol.{Message}
use libvhost_user.Vhost.Device.{VhostDev}
use libvhost_user.Vhost.MemTable.{Mmap}
use libvhost_user.Vhost.Handlers.{Answer}
use libvhost_user.Vhost.Dispatch.{
  num_handlers, call_handler, message_assumes_reply, must_reply_ack, Handled, reset_after,
  ack_reply, send_reply, finish_message, finish_result, handle_message,
}

-- The reply is the message as the handler left it, or an acknowledgement.
pub data Sent (a : Answer) (m : Message) : Type 0 where
  of_message :
      is_neg a.res ≡ false
      → message_assumes_reply a.msg ≡ true
      → m ≡ record a.msg { flags = 5 }
      → Sent a m
  of_ack :
      is_neg a.res ≡ false
      → must_reply_ack a.dev a.msg ≡ true
      → m ≡ record (ack_reply a) { flags = 5 }
      → Sent a m

pub send_reply-reply :
    (can_send : Message → Bool) (dev : VhostDev) (msg : Message) (calls : List Call)
    → (send_reply can_send dev msg calls).reply ≡ some (record msg { flags = 5 })
unfolding send_reply reset_after
send_reply-reply can_send dev msg calls = ground arith

-- The ways through `finish_message`.
finish_message_cases :
    (can_send : Message → Bool) (a : Answer)
    → ((finish_message can_send a).reply ≡ none)
      ⊎ (((is_neg a.res ≡ false)
            × (message_assumes_reply a.msg ≡ true)
            × ((finish_message can_send a).reply ≡ some (record a.msg { flags = 5 })))
          ⊎ ((is_neg a.res ≡ false)
              × (must_reply_ack a.dev a.msg ≡ true)
              × ((finish_message can_send a).reply ≡ some (record (ack_reply a) { flags = 5 }))))
unfolding finish_message reset_after
finish_message_cases can_send a = ground (
  arith,
  send_reply-reply can_send a.dev a.msg a.calls,
  send_reply-reply can_send a.dev (ack_reply a) a.calls,
)

finish_message-Sent :
    (can_send : Message → Bool) (a : Answer) (m : Message)
    → (finish_message can_send a).reply ≡ some m
    → Sent a m
finish_message-Sent can_send a m e = elim (finish_message_cases can_send a) [
  | inl t ↦ absurd (ground (arith, e, t))
  | inr (inl (ok_res, assumes, t)) ↦ of_message ok_res assumes cc
  | inr (inr (ok_res, ack, t)) ↦ of_ack ok_res ack cc
]

-- The answer of the handler that the reply is made of.
pub record IsSent (o : Option Answer) (m : Message) : Type 0 where
  pub answered : Answer
  pub called : o ≡ some answered
  pub sent : Sent answered m

finish_result-IsSent :
    (can_send : Message → Bool) (o : Option Answer) (h : Handled) (m : Message)
    → finish_result can_send o ≡ some h
    → h.reply ≡ some m
    → IsSent o m
unfolding finish_result
finish_result-IsSent can_send none h m e f = absurd (ground arith)
finish_result-IsSent can_send (some a) h m e f =
    let same : finish_message can_send a ≡ h = cc in
    record {
      answered = a;
      called = refl;
      sent = finish_message-Sent can_send a m (ap (λ (x : Handled). x.reply) same ∙ f);
    }

pub reset_no_reply :
    (dev : VhostDev) (h : Handled) (m : Message)
    → some (reset_after dev none []) ≡ some h
    → h.reply ≡ some m
    → ⊥
unfolding reset_after
reset_no_reply dev h m e f = ground arith

pub handle_message-IsSent :
    (mmap : Mmap) (can_send : Message → Bool) (fds : ℕ → ℤ) (dev : VhostDev) (msg m : Message)
    (h : Handled)
    → handle_message mmap can_send fds dev msg ≡ some h
    → h.reply ≡ some m
    → IsSent (call_handler mmap fds dev msg) m
unfolding handle_message
handle_message-IsSent mmap can_send fds dev msg m h e f =
    elim (Bool-cases (msg.request == 0 || ltb num_handlers msg.request)) [
      | inl t ↦ absurd (reset_no_reply dev h m (rw t at e) f)
      | inr t ↦ elim (Bool-cases (msg.request == num_handlers)) [
        | inl u ↦ absurd (ground (arith, e, t, u))
        | inr u ↦
            finish_result-IsSent can_send (call_handler mmap fds dev msg) h m (rw (t, u) at e) f
      ]
    ]
