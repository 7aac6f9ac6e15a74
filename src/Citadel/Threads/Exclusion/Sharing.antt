-- ===== src/Citadel/Threads/Exclusion/Sharing.antt =====
-- The mutexes, and how a thread's place and the buffer that it shares belong together.
use platform_external_nos_ho.Base.{
  ℕ, suc, ◌+◌, ◌<◌, ℤ, List, [], ◌∷◌, Bool, true, false, is_neg, is_nonzero, length, get_or, ltb,
  ◌≡◌, ◌≢◌, refl, ap, ap₂, ◌∙◌, if◌then◌else◌, arith,
}
use platform_external_nos_ho.Citadel.System.{
  Buffer, Mutex, in_buf_mutex, out_buf_mutex, System, Driver,
}
use platform_external_nos_ho.Citadel.Datagram.{bytes_from, copy_out, copy_in}
use platform_external_nos_ho.Citadel.Threads.{
  Job, reading, writing, Place, outside, refused, locked, loaded, answered, leaving, finished,
}

-- POSIX: whether a mutex is taken, by the results of the calls. A lock that has been got was free.
pub record IsMutex {W : Type 0} (system : System W) : Type 0 where
  pub taken : W → Mutex → Bool
  pub lock_enters :
      (m : Mutex) (w : W)
      → is_nonzero (system.mutex_lock m w).0 ≡ false
      → (taken w m ≡ false) × (taken (system.mutex_lock m w).1 m ≡ true)
  pub lock_fails :
      (m : Mutex) (w : W)
      → is_nonzero (system.mutex_lock m w).0 ≡ true
      → taken (system.mutex_lock m w).1 m ≡ taken w m
  pub lock_apart : (m n : Mutex) (w : W) → n ≢ m → taken (system.mutex_lock m w).1 n ≡ taken w n
  pub unlock_apart : (m n : Mutex) (w : W) → n ≢ m → taken (system.mutex_unlock m w).1 n ≡ taken w n
  pub ioctl_keeps :
      (fd : ℤ) (command len : ℕ) (b : Buffer) (w : W) (n : Mutex)
      → taken (system.ioctl_datagram fd command len b w).1 n ≡ taken w n

-- Between the lock and the end of the unlock.
abbrev pub inside : Place → Bool
inside outside = false
inside (refused ret) = false
inside locked = true
inside loaded = true
inside (answered own ret) = true
inside (leaving own ret bytes) = true
inside (finished own ret bytes) = false

abbrev pub buffer_of : {W : Type 0} → Mutex → Driver W → Buffer
buffer_of in_buf_mutex d = d.in_buf
buffer_of out_buf_mutex d = d.out_buf

-- What a thread's caller is to get from the thread's own ioctl: after a failure the buffer is as it
-- was.
abbrev pub Gets : ℤ × Buffer → List ℕ → List ℕ → Type 0
Gets own buf bytes = bytes ≡ (if is_neg own.0 then buf else copy_out own.1 (length buf) buf)

-- The kernel gets the caller's bytes.
abbrev pub Holds : Buffer → List ℕ → Type 0
Holds b buf = bytes_from b 0 (length buf) ≡ buf

-- How a thread's place and the buffer that it shares belong together.
abbrev pub Owns : Buffer → Job → Place → Type 0
Owns b job outside = Unit {0}
Owns b job (refused ret) = Unit {0}
Owns b job locked = Unit {0}
Owns b (reading fd command buf) loaded = Unit {0}
Owns b (writing fd command buf) loaded = Holds b buf
Owns b (reading fd command buf) (answered own ret) = (b ≡ own.1) × (is_neg own.0 ≡ false)
Owns b (writing fd command buf) (answered own ret) = Unit {0}
Owns b (reading fd command buf) (leaving own ret bytes) = Gets own buf bytes
Owns b (writing fd command buf) (leaving own ret bytes) = Holds own.1 buf
Owns b (reading fd command buf) (finished own ret bytes) = Gets own buf bytes
Owns b (writing fd command buf) (finished own ret bytes) = Holds own.1 buf

-- Outside the section the shared buffer does not matter.
pub Owns-outside :
    (b b' : Buffer) (job : Job) (p : Place) → inside p ≡ false → Owns b job p → Owns b' job p
Owns-outside b b' job outside h o = tt
Owns-outside b b' job (refused ret) h o = tt
Owns-outside b b' job locked h o = absurd (ground arith)
Owns-outside b b' job loaded h o = absurd (ground arith)
Owns-outside b b' job (answered own ret) h o = absurd (ground arith)
Owns-outside b b' job (leaving own ret bytes) h o = absurd (ground arith)
Owns-outside b b' (reading fd command buf) (finished own ret bytes) h o = o
Owns-outside b b' (writing fd command buf) (finished own ret bytes) h o = o

-- The `memcpy` into the shared buffer, from an offset on.
copied_from :
    (i : ℕ) (xs buf : List ℕ) (b : Buffer)
    → ((j : ℕ) → j < length xs → get_or buf (i + j) 0 ≡ get_or xs j 0)
    → i + length xs ≡ length buf
    → bytes_from (copy_in buf (length buf) b) i (length xs) ≡ xs
unfolding bytes_from copy_in
copied_from i [] buf b same h = refl
copied_from i (x ∷ xs) buf b same h =
    let first : get_or buf i 0 ≡ x =
      let here : i ≡ i + 0 = omega arith in ap (λ k. get_or buf k 0) here ∙ same 0 (omega arith) in
    let head : (if ltb i (length buf) then get_or buf i 0 else b i) ≡ x = ground (arith, first) in
    ap₂ (λ a as'. a ∷ as') head
      (copied_from (i + 1) xs buf b
        (λ j hj.
          let there : i + 1 + j ≡ i + suc j = omega arith in
          ap (λ k. get_or buf k 0) there ∙ same (suc j) (omega arith))
        (omega arith))

-- After the `memcpy` the shared buffer holds the caller's bytes.
pub Holds-copy_in : (buf : List ℕ) (b : Buffer) → Holds (copy_in buf (length buf) b) buf
Holds-copy_in buf b =
    copied_from 0 buf buf b
      (λ j hj. let there : 0 + j ≡ j = omega arith in ap (λ k. get_or buf k 0) there) (omega arith)
