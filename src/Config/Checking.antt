-- ===== src/Config/Checking.antt =====
-- CheckMainConfig: which configurations it accepts.
use mathlib.Core.List.{Memᴰ}
use aghast.Base.{
  ◌≡◌, ◌↔◌, ◌⊎◌, inl, inr, refl, sym, ap, String, Bool, true, false, ◌||◌, some, List, [], ◌∷◌,
  ◌==◌, string_comparable, eq_iff, arith, Bool-cases, All, done, done-injective,
}
use aghast.Config.{
  Array, missing, texts, mixed, MainTree, valid, no_file, has_config, check_files, check_array,
  check_main_config,
}

module _ (exists : String → Bool) where
  -- The integrations are given as texts, each has a file or a directory, and time is one of them.
  pub record IsComplete (main : MainTree) : Type 0 where
    pub names : List String
    pub system : main.has_system_name ≡ true
    pub port : main.has_control_port ≡ true
    pub given : main.integrations ≡ texts names
    pub configured : All (λ i. has_config exists i ≡ true) names
    pub time : Memᴰ "time" names

  check_files_sound :
      (is : List String) (found : Bool)
      → check_files exists is found ≡ valid
      → All (λ i. has_config exists i ≡ true) is × (Memᴰ "time" is ⊎ (found ≡ true))
  unfolding check_files
  check_files_sound [] true h = (tt, inr refl)
  check_files_sound [] false h = absurd (cc)
  check_files_sound (i ∷ is) found h = elim (Bool-cases (has_config exists i)) [
    | inr e ↦ let never : no_file i ≡ valid = rw e at h in absurd (cc)
    | inl e ↦
        let (files, time) = check_files_sound is (i == "time" || found) (rw e at h) in
        (
          (e, files),
          elim time [
            | inl m ↦ inl (Memᴰ.tail m)
            | inr f ↦ elim (Bool-cases (i == "time")) [
              | inl g ↦ inl (Memᴰ.head (sym ((eq_iff i "time").0 g)))
              | inr g ↦ inr (rw g at f)
            ]
          ],
        )
  ]

  check_files_complete :
      (is : List String) (found : Bool)
      → All (λ i. has_config exists i ≡ true) is
      → Memᴰ "time" is ⊎ (found ≡ true)
      → check_files exists is found ≡ valid
  unfolding check_files
  check_files_complete [] found h (inl m) = elim m [ ]
  check_files_complete [] found h (inr f) = rw f refl
  check_files_complete (i ∷ is) found (e, h) (inl (Memᴰ.head same)) = rw e (
      check_files_complete is (i == "time" || found) h
        (inr (ap (λ b. b || found) ((eq_iff i "time").1 (sym same)))))
  check_files_complete (i ∷ is) found (e, h) (inl (Memᴰ.tail m)) =
      rw e (check_files_complete is (i == "time" || found) h (inl m))
  check_files_complete (i ∷ is) found (e, h) (inr f) =
      rw e (check_files_complete is (i == "time" || found) h (inr (ground (arith, f))))

  check_array_sound :
      (a : Array)
      → check_array exists a ≡ done valid
      → (is : List String) × (a ≡ texts is) × (check_files exists is false ≡ valid)
  unfolding check_array
  check_array_sound missing h = absurd (cc)
  check_array_sound mixed h = absurd (cc)
  check_array_sound (texts []) h = absurd (cc)
  check_array_sound (texts (i ∷ is)) h = (i ∷ is, refl, done-injective h)

  check_array_complete :
      (is : List String)
      → All (λ i. has_config exists i ≡ true) is
      → Memᴰ "time" is
      → check_array exists (texts is) ≡ done valid
  unfolding check_array
  check_array_complete [] h m = elim m [ ]
  check_array_complete (i ∷ is) h m = ap done (check_files_complete (i ∷ is) false h (inl m))

  -- CheckMainConfig accepts a configuration exactly when it names the system and the control port,
  -- gives the integrations as texts, each has a file or a directory of its own, and the time
  -- integration is one of them.
  pub check_main_config_iff :
      (main : MainTree) → (check_main_config exists (some main) ≡ done valid) ↔ IsComplete main
  unfolding check_main_config
  check_main_config_iff main = (
    λ h. elim (Bool-cases main.has_system_name) [
      | inr e ↦ let h' = rw e at h in absurd (cc)
      | inl e ↦ elim (Bool-cases main.has_control_port) [
        | inr f ↦ let h' = rw (e, f) at h in absurd (cc)
        | inl f ↦
            let (is, given, ok) = check_array_sound main.integrations (rw (e, f) at h) in
            let (files, time) = check_files_sound is false ok in
            record {
              names = is;
              system = e;
              port = f;
              given = given;
              configured = files;
              time = elim time [ inl m ↦ m | inr never ↦ absurd (cc) ];
            }
      ]
    ],
    λ c. rw (c.system, c.port, c.given) (check_array_complete c.names c.configured c.time),
  )
