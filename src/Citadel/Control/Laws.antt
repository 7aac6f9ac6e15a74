-- ===== src/Citadel/Control/Laws.antt =====
-- The descriptors that opening and closing leave open.
use platform_external_nos_ho.Base.{
  ℕ, ◌<◌, ◌≡◌, refl, ◌∙◌, List, ℤ, pos, neg_ℕ, is_neg, eqb_ℤ, eqb_ℤ-eq, ap, sym, Bool, true, false,
  ◌||◌, ◌&&◌, not, Option, none, some, Option-cases, Bool-cases, inl, inr, arith,
}
use platform_external_nos_ho.Citadel.System.{System}
use platform_external_nos_ho.Citadel.Control.{
  dev_citadel, dev_dauntless, close_device, default_device, chosen_device, open_named,
  nos_device_open,
}

is_neg-neg_ℕ : (n : ℕ) → 0 < n → is_neg (neg_ℕ n) ≡ true
is_neg-neg_ℕ n h = ground arith

module _ {W : Type 0} (system : System W) where
  -- POSIX: which descriptors are open. `open` gives one that was not, or fails and sets errno; the
  -- error numbers are positive.
  pub record HasFiles : Type 0 where
    pub is_open : W → ℤ → Bool
    pub enodev_pos : 0 < system.enodev
    pub enomem_pos : 0 < system.enomem
    pub errno_pos :
        (name : List ℕ) (w : W)
        → is_neg (system.open_rdwr name w).0 ≡ true
        → 0 < system.errno (system.open_rdwr name w).1
    pub open_fails :
        (name : List ℕ) (w : W) (x : ℤ)
        → is_neg (system.open_rdwr name w).0 ≡ true
        → is_open (system.open_rdwr name w).1 x ≡ is_open w x
    pub open_fresh :
        (name : List ℕ) (w : W)
        → is_neg (system.open_rdwr name w).0 ≡ false
        → is_open w (system.open_rdwr name w).0 ≡ false
    pub open_adds :
        (name : List ℕ) (w : W) (x : ℤ)
        → is_neg (system.open_rdwr name w).0 ≡ false
        → is_open (system.open_rdwr name w).1 x
          ≡ (eqb_ℤ x (system.open_rdwr name w).0 || is_open w x)
    pub close_removes :
        (fd : ℤ) (w : W) (x : ℤ)
        → is_open (system.close_fd fd w).1 x ≡ (not (eqb_ℤ x fd) && is_open w x)
    pub stat_keeps :
        (name : List ℕ) (w : W) (x : ℤ) → is_open (system.stat name w).1 x ≡ is_open w x
    pub malloc_keeps : (w : W) (x : ℤ) → is_open (system.malloc_int w).1 x ≡ is_open w x
    pub free_keeps : (w : W) (x : ℤ) → is_open (system.free_int w) x ≡ is_open w x

  -- How opening ends, from `w` to `w'`: with a new descriptor that is the only change, or with a
  -- negative result and no change.
  pub data OpenEnd (files : HasFiles) (w w' : W) : ℤ × Option ℤ → Type 0 where
    opened :
        (fd : ℤ)
        → is_neg fd ≡ false
        → files.is_open w fd ≡ false
        → ((x : ℤ) → files.is_open w' x ≡ (eqb_ℤ x fd || files.is_open w x))
        → OpenEnd files w w' (pos 0, some fd)
    failed :
        (err : ℤ)
        → is_neg err ≡ true
        → ((x : ℤ) → files.is_open w' x ≡ files.is_open w x)
        → OpenEnd files w w' (err, none)

  module _ (files : HasFiles) where
    open files use {is_open}

    chosen_device-keeps :
        (name : Option (List ℕ)) (w : W) (x : ℤ)
        → is_open (chosen_device system name w).1 x ≡ is_open w x
    unfolding chosen_device default_device
    chosen_device-keeps (some name) w x = refl
    chosen_device-keeps none w x = ground (
      arith,
      files.stat_keeps dev_citadel w x,
      files.stat_keeps dev_dauntless (system.stat dev_citadel w).1 x,
    )

    close-fresh :
        (fd x : ℤ) (w : W)
        → is_open w fd ≡ false
        → (not (eqb_ℤ x fd) && (eqb_ℤ x fd || is_open w x)) ≡ is_open w x
    close-fresh fd x w fresh = elim (Bool-cases (eqb_ℤ x fd)) [
      | inl same ↦
          let here : is_open w x ≡ is_open w fd = ap (is_open w) (eqb_ℤ-eq x fd same) in
          rw same (sym (here ∙ fresh))
      | inr other ↦ rw other refl
    ]

    open_named-OpenEnd :
        (name : List ℕ) (w : W)
        → OpenEnd files w (open_named system name w).1 (open_named system name w).0
    unfolding open_named
    open_named-OpenEnd name w =
        let (fd, w₁) = system.open_rdwr name w in
        let (allocated, w₂) = system.malloc_int w₁ in
        elim (Bool-cases (is_neg fd)) [
          | inl bad ↦ rw bad (
              failed (neg_ℕ (system.errno w₁))
                (is_neg-neg_ℕ (system.errno w₁) (files.errno_pos name w bad))
                (λ x. files.open_fails name w x bad))
          | inr good ↦ elim (Bool-cases allocated) [
            | inl got ↦
                rw (good, got)
                  (opened fd good (files.open_fresh name w good)
                    (λ x. files.malloc_keeps w₁ x ∙ files.open_adds name w x good))
            | inr short ↦
                rw (good, short)
                  (failed (neg_ℕ system.enomem) (is_neg-neg_ℕ system.enomem files.enomem_pos) (λ x.
                    let there = files.malloc_keeps w₁ x ∙ files.open_adds name w x good in
                    files.close_removes fd w₂ x
                    ∙ ap (λ b. not (eqb_ℤ x fd) && b) there
                    ∙ close-fresh fd x w (files.open_fresh name w good)))
          ]
        ]

    OpenEnd-later :
        (w w₁ w' : W) (r : ℤ × Option ℤ)
        → ((x : ℤ) → is_open w₁ x ≡ is_open w x)
        → OpenEnd files w₁ w' r
        → OpenEnd files w w' r
    OpenEnd-later w w₁ w' r same (opened fd good fresh adds) =
        opened fd good (sym (same fd) ∙ fresh) (λ x. adds x ∙ ap (λ b. eqb_ℤ x fd || b) (same x))
    OpenEnd-later w w₁ w' r same (failed err bad keeps) = failed err bad (λ x. keeps x ∙ same x)

    -- With or without a device name, `nos_device_open` either returns 0 with a descriptor that was
    -- not open, and no other descriptor has changed, or it returns a negative number and leaves no
    -- descriptor open that was not, a failed `malloc` included.
    pub nos_device_open-OpenEnd :
        (name : Option (List ℕ)) (w : W)
        → OpenEnd files w (nos_device_open system name w).1 (nos_device_open system name w).0
    unfolding nos_device_open
    nos_device_open-OpenEnd name w =
        let w₁ = (chosen_device system name w).1 in
        elim (Option-cases (chosen_device system name w).0) [
          | inl missing ↦
              rw (missing, nos_device_open)
                (failed (neg_ℕ system.enodev) (is_neg-neg_ℕ system.enodev files.enodev_pos)
                  (chosen_device-keeps name w))
          | inr (device, found) ↦
              rw (found, nos_device_open)
                (OpenEnd-later w w₁ (open_named system device w₁).1 _ (chosen_device-keeps name w)
                  (open_named-OpenEnd device w₁))
        ]

    pub close_device-OpenEnd :
        (w w' w'' : W) (r : ℤ × Option ℤ) (x : ℤ)
        → r.0 ≡ pos 0
        → OpenEnd files w w' r
        → ((y : ℤ) → is_open w'' y ≡ is_open w' y)
        → is_open (close_device system r.1 w'') x ≡ is_open w x
    unfolding close_device
    close_device-OpenEnd w w' w'' r x zero_result (opened fd good fresh adds) same = rw good (
        files.free_keeps (system.close_fd fd w'').1 x
        ∙ files.close_removes fd w'' x
        ∙ ap (λ b. not (eqb_ℤ x fd) && b) (same x ∙ adds x)
        ∙ close-fresh fd x w fresh)
    close_device-OpenEnd w w' w'' r x zero_result (failed err bad keeps) same =
        let contrary : true ≡ false = sym bad ∙ ap is_neg zero_result in cc

    -- Closing what an opening that returned 0 has stored leaves every descriptor as it was before
    -- the opening.
    pub close_device-nos_device_open :
        (name : Option (List ℕ)) (w : W) (x : ℤ)
        → (nos_device_open system name w).0.0 ≡ pos 0
        → let ((err, ctx), w') = nos_device_open system name w in
          is_open (close_device system ctx w') x ≡ is_open w x
    close_device-nos_device_open name w x zero_result =
        let r = nos_device_open system name w in
        close_device-OpenEnd w r.1 r.1 r.0 x zero_result (nos_device_open-OpenEnd name w)
          (λ y. refl)
