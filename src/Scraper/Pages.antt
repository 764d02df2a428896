-- ===== src/Scraper/Pages.antt =====
-- What is published for a page.
use mathlib.Core.Path.{subst}
use mathlib.Core.List.{append-nil, append_assoc}
use aghast.Base.{
  ℕ, zero, suc, ◌+◌, ◌≤◌, ◌<◌, ◌≡◌, refl, ap, ◌∙◌, sym, arith, String, Bool, true, false, Option,
  none, some, List, [], ◌∷◌, ◌++◌, ◌==◌, nat_comparable, string_comparable, get_elem?, length,
  length-append, ltb, Outcome, done, panicked, ◌>>=◌, inl, inr, Option-cases,
}
use aghast.Base.Int.{ℤ}
use aghast.Runtime.{Value}
use aghast.Mqtt.{Mqtt, AghastMsg, send_publish, outbound_queue_len}
use aghast.Scraper.{
  ScraperT, Saved, wanted_from, elem_at, save, trimmed, message_for, on_element, on_page,
}

abbrev is_some : Option ℤ → Bool
is_some none = false
is_some (some i) = true

wanted_from-below : (ind ix : ℕ) (is : List ℤ) → ix < ind → wanted_from ind is ix ≡ false
unfolding wanted_from
wanted_from-below ind ix [] h = refl
wanted_from-below ind ix (i ∷ is) h = ground (arith, wanted_from-below (ind + 1) ix is)

-- The positions, and not the indices that stand there, decide.
wanted_from_lem :
    (ind j : ℕ) (is : List ℤ) → wanted_from ind is (ind + j) ≡ is_some (get_elem? is j)
unfolding wanted_from
wanted_from_lem ind j [] = refl
wanted_from_lem ind zero (i ∷ is) = ground arith
wanted_from_lem ind (suc j) (i ∷ is) =
    let later : wanted_from (ind + 1) is (ind + suc j) ≡ is_some (get_elem? is j) =
      ap (wanted_from (ind + 1) is) (omega arith) ∙ wanted_from_lem (ind + 1) j is in
    let other : (ind == ind + suc j) ≡ false = ground arith in rw (wanted_from, other) later

abbrev pub consed : {A : Type 0} → A → Option (List A) → Option (List A)
consed a none = none
consed a (some others) = some (a ∷ others)

-- The messages for the elements: each index takes the next element, and names the subtopic. none: an
-- index names no subtopic.
abbrev pub published :
    {F : Type 0} → ScraperT → List ℤ → List String → Option (List (AghastMsg (Value F)))
published scr [] attrs = some []
published scr (i ∷ is) [] = some []
published scr (i ∷ is) (attr ∷ attrs) = elim (elem_at scr.subtopics i) [
  | none ↦ none
  | some subtopic ↦
      consed (message_for scr.name subtopic (trimmed scr.suffix attr)) (published scr is attrs)
]

module _ {F : Type 0} (parse_float : String → Option F) (scr : ScraperT) where
  wanted : (ix : ℕ) → wanted_from 0 scr.indices ix ≡ is_some (get_elem? scr.indices ix)
  wanted ix = ap (wanted_from 0 scr.indices) (omega arith) ∙ wanted_from_lem 0 ix scr.indices

  on_element-beyond :
      (ix : ℕ) (attr : String) (saved : Saved F) (mq : Mqtt (Value F))
      → get_elem? scr.indices ix ≡ none
      → on_element parse_float scr ix attr (saved, mq) ≡ done (saved, mq)
  unfolding on_element
  on_element-beyond ix attr saved mq e =
      let no : wanted_from 0 scr.indices ix ≡ false = wanted ix ∙ rw e refl in
      rw (on_element, no) refl

  on_element-nameless :
      (ix : ℕ) (attr : String) (saved : Saved F) (mq : Mqtt (Value F)) (i : ℤ)
      → get_elem? scr.indices ix ≡ some i
      → elem_at scr.subtopics i ≡ none
      → on_element parse_float scr ix attr (saved, mq) ≡ panicked
  unfolding on_element
  on_element-nameless ix attr saved mq i e f =
      let yes : wanted_from 0 scr.indices ix ≡ true = wanted ix ∙ rw e refl in
      rw (on_element, yes, e, f) refl

  abbrev with_messages : Mqtt (Value F) → List (AghastMsg (Value F)) → Mqtt (Value F)
  with_messages mq msgs = record mq { publish_chan = mq.publish_chan ++ msgs }

  on_element-named :
      (ix : ℕ) (attr subtopic : String) (saved : Saved F) (mq : Mqtt (Value F)) (i : ℤ)
      → get_elem? scr.indices ix ≡ some i
      → elem_at scr.subtopics i ≡ some subtopic
      → length mq.publish_chan < outbound_queue_len
      → on_element parse_float scr ix attr (saved, mq)
        ≡ done (
          save parse_float scr.value_type ix (trimmed scr.suffix attr) saved,
          with_messages mq (message_for scr.name subtopic (trimmed scr.suffix attr) ∷ []),
        )
  unfolding on_element send_publish
  on_element-named ix attr subtopic saved mq i e f fits =
      let yes : wanted_from 0 scr.indices ix ≡ true = wanted ix ∙ rw e refl in
      let room : ltb (length mq.publish_chan) outbound_queue_len ≡ true = ground arith in
      rw (on_element, yes, e, f, room) refl

  abbrev pub Publishes :
      Option (List (AghastMsg (Value F)))
      → Mqtt (Value F)
      → Outcome (Saved F × Mqtt (Value F))
      → Type 0
  Publishes none mq o = o ≡ panicked
  Publishes (some msgs) mq o = (saved : Saved F) × (o ≡ done (saved, with_messages mq msgs))

  transfer :
      (mq : Mqtt (Value F)) {msgs msgs' : Option (List (AghastMsg (Value F)))}
      {o o' : Outcome (Saved F × Mqtt (Value F))}
      → msgs' ≡ msgs
      → o' ≡ o
      → Publishes msgs mq o
      → Publishes msgs' mq o'
  transfer mq {msgs} {o' = o'} e f h =
      subst (λ x. Publishes x mq o') (sym e) (subst (Publishes msgs mq) (sym f) h)

  prepended :
      (msgs : Option (List (AghastMsg (Value F)))) (msg : AghastMsg (Value F)) (mq : Mqtt (Value F))
      (o : Outcome (Saved F × Mqtt (Value F)))
      → Publishes msgs (with_messages mq (msg ∷ [])) o
      → Publishes (consed msg msgs) mq o
  prepended none msg mq o h = h
  prepended (some msgs) msg mq o (saved, h) = (
    saved,
    h
        ∙ ap (λ ps. done (saved, record mq { publish_chan = ps }))
            (append_assoc mq.publish_chan (msg ∷ []) msgs),
  )

  unchanged : (saved : Saved F) (mq : Mqtt (Value F)) → Publishes (some []) mq (done (saved, mq))
  unchanged saved mq = (
    saved,
    ap (λ ps. done (saved, record mq { publish_chan = ps })) (sym (append-nil mq.publish_chan)),
  )

  abbrev rest : ℕ → List String → Saved F × Mqtt (Value F) → Outcome (Saved F × Mqtt (Value F))
  rest ix attrs s = on_page parse_float scr (ix + 1) attrs s

  on_page_from :
      (is : List ℤ) (ix : ℕ) (attrs : List String) (saved : Saved F) (mq : Mqtt (Value F))
      → ((j : ℕ) → get_elem? scr.indices (ix + j) ≡ get_elem? is j)
      → length mq.publish_chan + length is ≤ outbound_queue_len
      → Publishes (published scr is attrs) mq (on_page parse_float scr ix attrs (saved, mq))
  unfolding on_page
  on_page_from [] ix [] saved mq same room = unchanged saved mq
  on_page_from (i ∷ is) ix [] saved mq same room = unchanged saved mq
  on_page_from [] ix (attr ∷ attrs) saved mq same room =
      let beyond =
        on_element-beyond ix attr saved mq (ap (get_elem? scr.indices) (omega arith) ∙ same 0) in
      transfer mq {msgs = published scr [] attrs} refl (ap (λ o. o >>= rest ix attrs) beyond) (
        on_page_from [] (ix + 1) attrs saved mq
          (λ j. ap (get_elem? scr.indices) (omega arith) ∙ same (suc j)) room)
  on_page_from (i ∷ is) ix (attr ∷ attrs) saved mq same room =
      let here : get_elem? scr.indices ix ≡ some i =
        ap (get_elem? scr.indices) (omega arith) ∙ same 0 in
      elim (Option-cases (elem_at scr.subtopics i)) [
        | inl e ↦
            transfer mq {msgs = none} {o = panicked} (rw (published, e) refl)
              (ap (λ o. o >>= rest ix attrs) (on_element-nameless ix attr saved mq i here e)) refl
        | inr (subtopic, e) ↦
            let msg : AghastMsg (Value F) =
              message_for scr.name subtopic (trimmed scr.suffix attr) in
            let room_here : length mq.publish_chan < outbound_queue_len = omega arith in
            let named = on_element-named ix attr subtopic saved mq i here e room_here in
            let saved' = save parse_float scr.value_type ix (trimmed scr.suffix attr) saved in
            let mq' = with_messages mq (msg ∷ []) in
            let longer : length (mq.publish_chan ++ msg ∷ []) ≡ length mq.publish_chan + 1 =
              length-append mq.publish_chan (msg ∷ []) in
            let room_there : length (mq.publish_chan ++ msg ∷ []) + length is ≤ outbound_queue_len =
              omega (arith, longer) in
            transfer mq {msgs = consed msg (published scr is attrs)} (rw (published, e) refl)
              (ap (λ o. o >>= rest ix attrs) named)
              (prepended (published scr is attrs) msg mq (rest ix attrs (saved', mq')) (
                on_page_from is (ix + 1) attrs saved' mq'
                  (λ j. ap (get_elem? scr.indices) (omega arith) ∙ same (suc j)) room_there))
      ]

  -- A page, with room in the channel for a message of each index: the scraper publishes, for each index
  -- and the element in the same place of the page (the first index takes the first element, and so on),
  -- the trimmed attribute under the subtopic that stands where the index says; or the program ends, when
  -- such an index is outside the list of subtopics.
  pub on_page_lem :
      (attrs : List String) (saved : Saved F) (mq : Mqtt (Value F))
      → length mq.publish_chan + length scr.indices ≤ outbound_queue_len
      → Publishes (published scr scr.indices attrs) mq (on_page parse_float scr 0 attrs (saved, mq))
  on_page_lem attrs saved mq room =
      on_page_from scr.indices 0 attrs saved mq (λ j. ap (get_elem? scr.indices) (omega arith)) room
