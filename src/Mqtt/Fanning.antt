-- ===== src/Mqtt/Fanning.antt =====
-- What the callback of fanOut does with a message: each subscriber of the topic gets it.
use aghast.Base.{
  ℕ, ◌+◌, ◌≡◌, refl, sym, ap, ◌∙◌, inl, inr, String, List, [], ◌∷◌, if◌then◌else◌, ◌==◌,
  nat_comparable, string_comparable, length, get_elem?, lookup_or, ltb, Bool-cases, Option-cases,
  with_copies, with_copies_zero, with_copies_add, get_elem?-write, done, >>=-eq-done,
  done-injective,
}
use aghast.Mqtt.{Mqtt, GeneralMsg, fan, inbound_queue_len, send, send_each, receive}

-- How often a channel stands in a list.
abbrev pub count : ℕ → List ℕ → ℕ
count c [] = 0
count c (x ∷ xs) = (if x == c then 1 else 0) + count c xs

module _ {P : Type 0} where
  -- One send: only the buffer of that channel changes.
  send_lem :
      (ch : ℕ) (msg : GeneralMsg P) (b b' : List (List (GeneralMsg P))) (c : ℕ)
      → send ch msg b ≡ done b'
      → get_elem? b' c ≡ with_copies (if ch == c then 1 else 0) msg (get_elem? b c)
  unfolding send
  send_lem ch msg b b' c h = elim (Option-cases (get_elem? b ch)) [
    | inl e ↦ let h' = rw (e, send) at h in absurd (cc)
    | inr (waiting, e) ↦ elim (Bool-cases (ltb (length waiting) inbound_queue_len)) [
      | inl room ↦
          let sent = done-injective (rw (e, room, send) at h) in
          sym (ap (λ r. get_elem? r c) sent) ∙ get_elem?-write msg ch c waiting b e
      | inr full ↦ let h' = rw (e, full, send) at h in absurd (cc)
    ]
  ]

  send_each_lem :
      (chs : List ℕ) (msg : GeneralMsg P) (b b' : List (List (GeneralMsg P))) (c : ℕ)
      → send_each chs msg b ≡ done b'
      → get_elem? b' c ≡ with_copies (count c chs) msg (get_elem? b c)
  unfolding send_each
  send_each_lem [] msg b b' c h =
      rw (done-injective h) (sym (with_copies_zero msg (get_elem? b' c)))
  send_each_lem (ch ∷ chs) msg b b' c h =
      let (mid, first, later) = >>=-eq-done (send ch msg b) (send_each chs msg) h in
      send_each_lem chs msg mid b' c later
      ∙ ap (with_copies (count c chs) msg) (send_lem ch msg b mid c first)
      ∙ with_copies_add (if ch == c then 1 else 0) (count c chs) msg (get_elem? b c)

  -- When the callback of a topic returns, each channel has the message behind what waited there,
  -- as often as it is subscribed to the topic; nothing else has changed.
  pub receive-fan :
      (topic : String) (msg : GeneralMsg P) (m m' : Mqtt P)
      → receive (fan topic) msg m ≡ done m'
      → ((c : ℕ)
          → get_elem? m'.inbound c
            ≡ with_copies (count c (lookup_or [] topic m.subs)) msg (get_elem? m.inbound c))
        × (m' ≡ record m { inbound = m'.inbound })
  unfolding receive
  receive-fan topic msg m m' h =
      let (b, sent, last) =
        >>=-eq-done (send_each (lookup_or [] topic m.subs) msg m.inbound)
          (λ b. done (record m { inbound = b })) h in
      let same = done-injective last in
      rw (← same) (λ c. send_each_lem (lookup_or [] topic m.subs) msg m.inbound b c sent, refl)
