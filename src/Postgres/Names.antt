-- ===== src/Postgres/Names.antt =====
-- The table of names.
use aghast.Base.{◌≡◌, refl, ap, ◌∙◌, Option, inl, inr, ◌⊎◌, none, some, Bool-cases, some_inj}
use aghast.Base.Int.{ℤ}
use aghast.Postgres.{
  LoggerT, Database, Answer, row, no_rows, failed, select_sql, insert_sql, name_id, id_or_error,
}

module _ (db : Database) where
  open db use {State, query_row, exec}

  Answer-cases : (a : Answer) → ((n : ℤ) × (a ≡ row n)) ⊎ ((a ≡ no_rows) ⊎ (a ≡ failed))
  Answer-cases (row n) = inl (n, refl)
  Answer-cases no_rows = inr (inl refl)
  Answer-cases failed = inr (inr refl)

  name_id-row :
      (l : LoggerT) (s : State) (n : ℤ)
      → query_row (select_sql l) s ≡ row n
      → name_id db l s ≡ (s, some n)
  unfolding name_id
  name_id-row l s n e = rw (name_id, e) refl

  id_or_error-some : (a : Answer) (n : ℤ) → id_or_error db a ≡ some n → a ≡ row n
  id_or_error-some (row m) n e = ap row (some_inj e)
  id_or_error-some no_rows n e = cc
  id_or_error-some failed n e = cc

  selected :
      (l : LoggerT) (s s' at : State) (n : ℤ) (answer : Answer)
      → query_row (select_sql l) at ≡ answer
      → ◌≡◌ {A = State × Option ℤ} (at, id_or_error db answer) (s', some n)
      → query_row (select_sql l) s' ≡ row n
  selected l s s' at n answer e h =
      let here : at ≡ s' = ap (λ x. x.0) h in
      rw (← here) (e ∙ id_or_error-some answer n (ap (λ x. x.1) h))

  no_id : (s s' : State) (n : ℤ) → ◌≡◌ {A = State × Option ℤ} (s, none) (s', some n) → ⊥
  no_id s s' n h = let wrong : none ≡ some n = ap (λ x. x.1) h in cc

  name_id-selected :
      (l : LoggerT) (s s' : State) (n : ℤ)
      → name_id db l s ≡ (s', some n)
      → query_row (select_sql l) s' ≡ row n
  unfolding name_id
  name_id-selected l s s' n h = elim (Answer-cases (query_row (select_sql l) s)) [
    | inl (m, e) ↦ selected l s s' s n (row m) e (rw (name_id, e) at h)
    | inr (inr e) ↦ absurd (no_id s s' n (rw (name_id, e) at h))
    | inr (inl e) ↦ elim (Bool-cases (exec (insert_sql l) s).1) [
      | inl f ↦
          let after = (exec (insert_sql l) s).0 in
          selected l s s' after n (query_row (select_sql l) after) refl (rw (name_id, e, f) at h)
      | inr f ↦ absurd (no_id (exec (insert_sql l) s).0 s' n (rw (name_id, e, f) at h))
    ]
  ]

  -- A logger that has found or made the id of its name finds the same id when it is started again,
  -- and changes nothing in the database then.
  pub name_id_again :
      (l : LoggerT) (s s' : State) (n : ℤ)
      → name_id db l s ≡ (s', some n)
      → name_id db l s' ≡ (s', some n)
  name_id_again l s s' n h = name_id-row l s' n (name_id-selected l s s' n h)
