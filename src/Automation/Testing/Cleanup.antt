-- ===== src/Automation/Testing/Cleanup.antt =====
-- testCondition leaves no subscription behind: its deferred unsubscription takes away what it added.
use mathlib.Core.List.{Perm}
use aghast.Base.{
  ℕ, ◌≡◌, sym, ap, ◌∙◌, String, Bool, Option, [], lookup_or, done, ◌>>=◌, >>=-eq-done,
  done-injective, arith,
}
use aghast.Runtime.{Runtime, Value}
use aghast.Mqtt.{Mqtt, GeneralMsg, subscribe_to_topic, unsubscribe_from_topic, send_third_party}
use aghast.Mqtt.Subscribers.{unsubscribe_removes, subs-subscribe_self, restored, mem_last}
use aghast.Automation.{Condition}
use aghast.Automation.Testing.{answer_topic, query_of, judge, ask}

send_third_party-subs :
    {F : Type 0} (msg : GeneralMsg (Value F)) (mq mq' : Mqtt (Value F))
    → send_third_party msg mq ≡ done mq'
    → mq'.subs ≡ mq.subs
unfolding send_third_party
send_third_party-subs msg mq mq' h = ground arith

unsubscribed :
    {F : Type 0} (topic : String) (mq later left : Mqtt (Value F))
    → later.subs ≡ (subscribe_to_topic topic mq).0.subs
    → unsubscribe_from_topic topic (subscribe_to_topic topic mq).1 later ≡ done left
    → (t : String) → Perm (lookup_or [] t left.subs) (lookup_or [] t mq.subs)
unsubscribed topic mq later left same h =
    let ch = (subscribe_to_topic topic mq).1 in
    let held = ap (lookup_or [] topic) same ∙ subs-subscribe_self topic mq in
    let (left', returned, fewer, kept) =
      unsubscribe_removes topic ch later (rw held (mem_last ch (lookup_or [] topic mq.subs))) in
    let it : left' ≡ left = done-injective (sym returned ∙ h) in
    rw (← it) (
      restored topic mq left' (rw (ap (lookup_or [] topic) same) at fewer)
        (λ other ne. kept other ne ∙ ap (lookup_or [] other) same))

module _ (rt : Runtime) where
  open rt use {Float}

  -- If nothing else subscribes or unsubscribes while it waits for the answer, a condition that
  -- queries leaves every topic with the subscribers that it had, each as often.
  pub ask-subs :
      (cond : Condition Float)
      (wait : ℕ → Mqtt (Value Float) → Mqtt (Value Float) × Option (GeneralMsg (Value Float)))
      (mq mq' : Mqtt (Value Float)) (result : Bool)
      → ((ch : ℕ) (m : Mqtt (Value Float)) → (wait ch m).0.subs ≡ m.subs)
      → ask rt cond wait mq ≡ done (result, mq')
      → (topic : String) → Perm (lookup_or [] topic mq'.subs) (lookup_or [] topic mq.subs)
  unfolding ask
  ask-subs cond wait mq mq' result quiet h =
      let topic = answer_topic rt cond in
      let (subscribed, ch) = subscribe_to_topic topic mq in
      let (sent, asked, h') =
        >>=-eq-done (send_third_party (query_of rt cond) subscribed)
          (λ sent. judge rt cond (wait ch sent).1 >>= λ r.
            unsubscribe_from_topic topic ch (wait ch sent).0 >>= λ left. done (r, left))
          h in
      let (r, judged, h'') =
        >>=-eq-done (judge rt cond (wait ch sent).1)
          (λ r. unsubscribe_from_topic topic ch (wait ch sent).0 >>= λ left. done (r, left)) h' in
      let (left, gone, last) =
        >>=-eq-done (unsubscribe_from_topic topic ch (wait ch sent).0) (λ left. done (r, left))
          h'' in
      let it : left ≡ mq' = ap (λ (p : Bool × Mqtt (Value Float)). p.1) (done-injective last) in
      rw (← it) (
        unsubscribed topic mq (wait ch sent).0 left
          (quiet ch sent ∙ send_third_party-subs (query_of rt cond) subscribed sent asked) gone)
