-- ===== src/Citadel/Threads/Exclusion/Invariant.antt =====
-- What every step of every thread keeps: one thread at a time is inside the section that a mutex
-- guards, and what it shares is its own meanwhile.
use mathlib.Core.Path.{subst}
use platform_external_nos_ho.Base.{
  ℕ, true, false, ◌≡◌, ◌≢◌, ◌⊎◌, refl, ap, ◌∙◌, sym, ◌==◌, ==_iff, Bool-cases, inl, inr, arith,
}
use platform_external_nos_ho.Citadel.System.{
  Buffer, Mutex, in_buf_mutex, out_buf_mutex, System, Driver,
}
use platform_external_nos_ho.Citadel.Threads.{
  Job, mutex_of, Place, Threads, Step, pick, Reach, start, later, update,
}
use platform_external_nos_ho.Citadel.Threads.Exclusion.Sharing.{
  IsMutex, inside, Owns, buffer_of, Owns-outside,
}
use platform_external_nos_ho.Citadel.Threads.Exclusion.Effect.{IsEffect, move-IsEffect}

-- Both mutexes are different or the same.
same_mutex : (m n : Mutex) → (m ≡ n) ⊎ (n ≢ m)
same_mutex in_buf_mutex in_buf_mutex = inl refl
same_mutex in_buf_mutex out_buf_mutex = inr (λ e. cc)
same_mutex out_buf_mutex in_buf_mutex = inr (λ e. cc)
same_mutex out_buf_mutex out_buf_mutex = inl refl

module _ {W : Type 0} (system : System W) (jobs : ℕ → Job) (mutex : IsMutex system) where
  open mutex use {taken}

  -- What holds of the threads and the driver at every moment.
  pub record Invariant (t : Threads W) : Type 0 where
    pub one_inside :
        (i j : ℕ)
        → inside (t.place i) ≡ true
        → inside (t.place j) ≡ true
        → mutex_of (jobs i) ≡ mutex_of (jobs j)
        → i ≡ j
    pub is_taken :
        (i : ℕ) → inside (t.place i) ≡ true → taken t.driver.world (mutex_of (jobs i)) ≡ true
    pub owns : (i : ℕ) → Owns (buffer_of (mutex_of (jobs i)) t.driver) (jobs i) (t.place i)

  module _ (t : Threads W) (inv : Invariant t) (i : ℕ) (p : Place) (d : Driver W)
      (effect : IsEffect system mutex (jobs i) (t.place i) t.driver p d) where
    open effect use {apart_taken, apart_buffer, keeps_buffer, keeps_taken, was_free}

    -- With another thread inside the same section, this one is not.
    not_both :
        (j : ℕ)
        → j ≢ i
        → inside (t.place j) ≡ true
        → mutex_of (jobs j) ≡ mutex_of (jobs i)
        → inside (t.place i) ≡ false
    not_both j other there same = elim (Bool-cases (inside (t.place i))) [
      | inl here ↦ absurd (other (inv.one_inside j i there here same))
      | inr out ↦ out
    ]

    other_taken :
        (j : ℕ) → j ≢ i → inside (t.place j) ≡ true → taken d.world (mutex_of (jobs j)) ≡ true
    other_taken j other there = elim (same_mutex (mutex_of (jobs j)) (mutex_of (jobs i))) [
      | inl same ↦
          ap (taken d.world) same
          ∙ keeps_taken (not_both j other there same)
              (ap (taken t.driver.world) (sym same) ∙ inv.is_taken j there)
      | inr apart ↦ apart_taken (mutex_of (jobs j)) (λ e. apart (sym e)) ∙ inv.is_taken j there
    ]

    other_buffer :
        (j : ℕ)
        → j ≢ i
        → inside (t.place j) ≡ true
        → buffer_of (mutex_of (jobs j)) d ≡ buffer_of (mutex_of (jobs j)) t.driver
    other_buffer j other there = elim (same_mutex (mutex_of (jobs j)) (mutex_of (jobs i))) [
      | inl same ↦
          ap (λ m. buffer_of m d) same
          ∙ keeps_buffer (not_both j other there same)
          ∙ ap (λ m. buffer_of m t.driver) (sym same)
      | inr apart ↦ apart_buffer (mutex_of (jobs j)) (λ e. apart (sym e))
    ]

    other-Owns : (j : ℕ) → j ≢ i → Owns (buffer_of (mutex_of (jobs j)) d) (jobs j) (t.place j)
    other-Owns j other = elim (Bool-cases (inside (t.place j))) [
      | inl there ↦
          subst (λ (b : Buffer). Owns b (jobs j) (t.place j)) (sym (other_buffer j other there))
            (inv.owns j)
      | inr out ↦
          Owns-outside (buffer_of (mutex_of (jobs j)) t.driver) (buffer_of (mutex_of (jobs j)) d)
            (jobs j) (t.place j) out (inv.owns j)
    ]

    -- A thread that has come in has found nobody inside.
    nobody_else :
        (j : ℕ)
        → inside p ≡ true
        → inside (t.place j) ≡ true
        → mutex_of (jobs j) ≡ mutex_of (jobs i)
        → j ≡ i
    nobody_else j entered there same = elim (Bool-cases (inside (t.place i))) [
      | inl here ↦ inv.one_inside j i there here same
      | inr out ↦
          let free = was_free out entered in
          let held = ap (taken t.driver.world) (sym same) ∙ inv.is_taken j there in
          absurd (ground (arith, free, held))
    ]

  -- The place of a thread after a step of thread `i`.
  moved_or_not :
      (places : ℕ → Place) (i j : ℕ) (p : Place)
      → ((j ≡ i) × (update places i p j ≡ p)) ⊎ ((j ≢ i) × (update places i p j ≡ places j))
  moved_or_not places i j p = elim (Bool-cases (j == i)) [
    | inl same ↦ inl ((==_iff j i).0 same, rw same refl)
    | inr other ↦ inr (λ e. absurd (ground (arith, other, (==_iff j i).1 e)), rw other refl)
  ]

  Invariant-start : (d : Driver W) → Invariant (record { driver = d; place = λ _. Place.outside })
  Invariant-start d = record {
    one_inside = λ i j h. absurd (ground (arith, h));
    is_taken = λ i h. absurd (ground (arith, h));
    owns = λ i. tt;
  }

  module _ (t : Threads W) (inv : Invariant t) (i : ℕ) (p : Place) (d : Driver W)
      (effect : IsEffect system mutex (jobs i) (t.place i) t.driver p d) where
    still_one_inside :
        (j k : ℕ)
        → inside (update t.place i p j) ≡ true
        → inside (update t.place i p k) ≡ true
        → mutex_of (jobs j) ≡ mutex_of (jobs k)
        → j ≡ k
    still_one_inside j k hj hk same = elim (moved_or_not t.place i j p) [
      | inl (j_is, at_j) ↦ elim (moved_or_not t.place i k p) [
        | inl (k_is, at_k) ↦ j_is ∙ sym k_is
        | inr (k_other, at_k) ↦
            j_is
            ∙ sym (
                nobody_else t inv i p d effect k (ap inside (sym at_j) ∙ hj)
                  (ap inside (sym at_k) ∙ hk) (sym same ∙ ap (λ n. mutex_of (jobs n)) j_is))
      ]
      | inr (j_other, at_j) ↦ elim (moved_or_not t.place i k p) [
        | inl (k_is, at_k) ↦
            nobody_else t inv i p d effect j (ap inside (sym at_k) ∙ hk) (ap inside (sym at_j) ∙ hj)
              (same ∙ ap (λ n. mutex_of (jobs n)) k_is)
            ∙ sym k_is
        | inr (k_other, at_k) ↦
            inv.one_inside j k (ap inside (sym at_j) ∙ hj) (ap inside (sym at_k) ∙ hk) same
      ]
    ]

    still_taken :
        (j : ℕ) → inside (update t.place i p j) ≡ true → taken d.world (mutex_of (jobs j)) ≡ true
    still_taken j hj = elim (moved_or_not t.place i j p) [
      | inl (j_is, at_j) ↦
          ap (λ n. taken d.world (mutex_of (jobs n))) j_is
          ∙ effect.is_taken (inv.is_taken i) (ap inside (sym at_j) ∙ hj)
      | inr (j_other, at_j) ↦ other_taken t inv i p d effect j j_other (ap inside (sym at_j) ∙ hj)
    ]

    still-Owns : (j : ℕ) → Owns (buffer_of (mutex_of (jobs j)) d) (jobs j) (update t.place i p j)
    still-Owns j = elim (moved_or_not t.place i j p) [
      | inl (j_is, at_j) ↦
          subst (λ (q : Place). Owns (buffer_of (mutex_of (jobs j)) d) (jobs j) q) (sym at_j)
            (subst (λ (n : ℕ). Owns (buffer_of (mutex_of (jobs n)) d) (jobs n) p) (sym j_is)
              (effect.owns (inv.owns i)))
      | inr (j_other, at_j) ↦
          subst (λ (q : Place). Owns (buffer_of (mutex_of (jobs j)) d) (jobs j) q) (sym at_j)
            (other-Owns t inv i p d effect j j_other)
    ]

  Invariant-Step : (t u : Threads W) → Invariant t → Step system jobs t u → Invariant u
  Invariant-Step t u inv (pick i {p} {d} h) =
      let effect = move-IsEffect system mutex (jobs i) (t.place i) p t.driver d h in
      record {
        one_inside = still_one_inside t inv i p d effect;
        is_taken = still_taken t inv i p d effect;
        owns = still-Owns t inv i p d effect;
      }

  pub reach-Invariant : (d : Driver W) (t : Threads W) → Reach system jobs d t → Invariant t
  reach-Invariant d t start = Invariant-start d
  reach-Invariant d u (later {t = s} reached step) =
      Invariant-Step s u (reach-Invariant d s reached) step
