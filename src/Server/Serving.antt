-- ===== src/Server/Serving.antt =====
-- The instances that run are the ones that the manager holds.
use aghast.Base.{
  ℕ, ◌+◌, ◌<◌, ◌≡◌, ap, ◌∙◌, sym, arith, String, Bool, true, false, none, some, List, [], ◌∷◌,
  if◌then◌else◌, ◌==◌, nat_comparable, string_comparable, eq_iff, eq_refl, Assoc, lookup, insert,
  erase, lookup-insert, lookup-erase, inl, inr, Bool-cases,
}
use aghast.Server.{Call, loaded, started, stopped}

-- The calls are the newest first.
abbrev pub is_running : ℕ → List Call → Bool
is_running n [] = false
is_running n (loaded m ∷ cs) = is_running n cs
is_running n (started m ∷ cs) = if m == n then true else is_running n cs
is_running n (stopped m ∷ cs) = if m == n then false else is_running n cs

-- Each name has its own instance, and these are the instances that run.
pub record IsOwn (integs : Assoc ℕ) (made : ℕ) (calls : List Call) : Type 0 where
  pub below : (x : String) (n : ℕ) → lookup x integs ≡ some n → n < made
  pub own : (x y : String) (n : ℕ) → lookup x integs ≡ some n → lookup y integs ≡ some n → x ≡ y
  pub held : (n : ℕ) → is_running n calls ≡ true → (x : String) × (lookup x integs ≡ some n)
  pub runs : (x : String) (n : ℕ) → lookup x integs ≡ some n → is_running n calls ≡ true

-- The same, where no instance of `name` runs.
pub record IsOwnBut (name : String) (integs : Assoc ℕ) (made : ℕ) (calls : List Call) : Type 0 where
  pub below : (x : String) (n : ℕ) → lookup x integs ≡ some n → n < made
  pub own : (x y : String) (n : ℕ) → lookup x integs ≡ some n → lookup y integs ≡ some n → x ≡ y
  pub held :
      (n : ℕ)
      → is_running n calls ≡ true
      → (x : String) × (lookup x integs ≡ some n) × ((name == x) ≡ false)
  pub runs :
      (x : String) (n : ℕ)
      → lookup x integs ≡ some n
      → (name == x) ≡ false
      → is_running n calls ≡ true

module _ (name : String) (integs : Assoc ℕ) (made : ℕ) (calls : List Call) where
  not_there :
      (x : String) (n : ℕ)
      → lookup name integs ≡ none
      → lookup x integs ≡ some n
      → (name == x) ≡ false
  not_there x n absent there = ground (arith, eq_iff name x)

  other_number :
      (x : String) (n m : ℕ)
      → IsOwn integs made calls
      → lookup name integs ≡ some n
      → lookup x integs ≡ some m
      → (name == x) ≡ false
      → (n == m) ≡ false
  other_number x n m w at_name at_x other = elim (Bool-cases (n == m)) [
    | inl e ↦
        let same : n ≡ m = ground arith in
        let one = w.own name x n at_name (at_x ∙ ap some (sym same)) in
        absurd (let wrong = (eq_iff name x).1 one in ground arith)
    | inr e ↦ e
  ]

  other_name :
      (x : String) (n m : ℕ)
      → lookup name integs ≡ some n
      → lookup x integs ≡ some m
      → (n == m) ≡ false
      → (name == x) ≡ false
  other_name x n m at_name at_x other = ground (arith, eq_iff name x)

  pub absent-IsOwnBut :
      lookup name integs ≡ none → IsOwn integs made calls → IsOwnBut name integs made calls
  absent-IsOwnBut absent w = record {
    below = w.below;
    own = w.own;
    held = λ n r. let (x, there) = w.held n r in (x, there, not_there x n absent there);
    runs = λ x n there other. w.runs x n there;
  }

  pub stopped-IsOwnBut :
      (n : ℕ)
      → lookup name integs ≡ some n
      → IsOwn integs made calls
      → IsOwnBut name integs made (stopped n ∷ calls)
  stopped-IsOwnBut n at w = record {
    below = w.below;
    own = w.own;
    held = λ m r.
        let (x, there) = w.held m (ground arith) in
        (x, there, other_name x n m at there (ground arith));
    runs = λ x m there other.
        let ran = w.runs x m there in
        let apart = other_number x n m w at there other in ground arith;
  }

  pub erase-IsOwn : IsOwnBut name integs made calls → IsOwn (erase name integs) made calls
  erase-IsOwn w = record {
    below = λ x n there. w.below x n (kept x n there);
    own = λ x y n at_x at_y. w.own x y n (kept x n at_x) (kept y n at_y);
    held = λ n r.
        let (x, there, other) = w.held n r in (x, lookup-erase name x integs ∙ rw other there);
    runs = λ x n there. w.runs x n (kept x n there) (not_erased x n there);
  }
    where
      kept : (x : String) (n : ℕ) → lookup x (erase name integs) ≡ some n → lookup x integs ≡ some n
      kept x n h = ground (arith, lookup-erase name x integs)

      not_erased :
          (x : String) (n : ℕ) → lookup x (erase name integs) ≡ some n → (name == x) ≡ false
      not_erased x n h = ground (arith, lookup-erase name x integs)

  pub insert-IsOwn :
      IsOwnBut name integs made calls
      → IsOwn (insert name made integs) (made + 1) (started made ∷ loaded made ∷ calls)
  insert-IsOwn w = record {
    below = λ x n there. ground (arith, lookup-insert name x made integs, w.below x n);
    own = λ x y n at_x at_y. elim (Bool-cases (name == x)) [
      | inl e ↦ elim (Bool-cases (name == y)) [
        | inl f ↦ sym ((eq_iff name x).0 e) ∙ (eq_iff name y).0 f
        | inr f ↦ absurd (
            ground (
              arith,
              lookup-insert name x made integs,
              lookup-insert name y made integs,
              w.below y n,
            ))
      ]
      | inr e ↦ elim (Bool-cases (name == y)) [
        | inl f ↦ absurd (
            ground (
              arith,
              lookup-insert name x made integs,
              lookup-insert name y made integs,
              w.below x n,
            ))
        | inr f ↦ w.own x y n (kept x n e at_x) (kept y n f at_y)
      ]
    ];
    held = λ n r. elim (Bool-cases (made == n)) [
      | inl e ↦
          let same : made ≡ n = ground arith in
          (name, lookup-insert name name made integs ∙ rw (eq_refl name) (ap some same))
      | inr e ↦
          let (x, there, other) = w.held n (ground arith) in
          (x, lookup-insert name x made integs ∙ rw other there)
    ];
    runs = λ x n there. elim (Bool-cases (name == x)) [
      | inl e ↦ ground (arith, lookup-insert name x made integs)
      | inr e ↦
          let ran = w.runs x n (kept x n e there) e in
          let less = w.below x n (kept x n e there) in ground arith
    ];
  }
    where
      kept :
          (x : String) (n : ℕ)
          → (name == x) ≡ false
          → lookup x (insert name made integs) ≡ some n
          → lookup x integs ≡ some n
      kept x n e h = ground (arith, lookup-insert name x made integs)
