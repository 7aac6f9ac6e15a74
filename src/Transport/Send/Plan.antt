-- ===== src/Transport/Send/Plan.antt =====
-- The datagrams of a request, described with no loop over the device: the data in chunks of the
-- largest transfer, of which all but the first carry the flag for more, and then the "go" command.
use platform_external_nos_ho.Base.{
  ℕ, zero, suc, ◌+◌, ◌*◌, ◌%◌, ◌/◌, ◌^◌, ◌≤◌, ◌<◌, ◌≡◌, refl, ap, ◌∙◌, List, [], ◌∷◌, ◌++◌, M, leb,
  is_nonzero, take, drop, length, All, if◌then◌else◌, arith, length-take, length-drop,
  take-append-drop, Bool-cases, inl, inr, ◌==◌,
}
use mathlib.Core.List.{append-nil}
use platform_external_nos_ho.Application.AppStatus.{app_success, app_error_io}
use platform_external_nos_ho.Device.{Platform, max_device_transfer}
use platform_external_nos_ho.Transport.Context.{TransportContext}
use platform_external_nos_ho.Transport.Retry.{nos_device_write}

-- A message cut into pieces of the largest transfer; there is one at least. The number bounds the
-- pieces, and the length of the message is enough.
unfoldable pub chunks : ℕ → List ℕ → List (List ℕ)
chunks zero xs = xs ∷ []
chunks (suc n) xs =
    let rest = chunks n (drop max_device_transfer xs) in
    if leb (length xs) max_device_transfer then xs ∷ [] else take max_device_transfer xs ∷ rest

-- A command word and the bytes that go with it.
abbrev pub Datagram : Type 0
Datagram = ℕ × List ℕ

-- The datagrams that carry the pieces; `flags` is the flag byte of the first.
unfoldable pub datagrams : ℕ → ℕ → List (List ℕ) → List Datagram
datagrams flags id [] = []
datagrams flags id (c ∷ cs) = (flags * 2 ^ 24 + (id * 2 ^ 16 + length c), c) ∷ datagrams 0x70 id cs

-- All bytes of some datagrams, in order.
unfoldable pub payload : List Datagram → List ℕ
payload [] = []
payload ((command, bytes) ∷ ds) = bytes ++ payload ds

pub payload-chunks :
    (n flags id : ℕ) (xs : List ℕ) → payload (datagrams flags id (chunks n xs)) ≡ xs
unfolding chunks datagrams payload
payload-chunks zero flags id xs = append-nil xs
payload-chunks (suc n) flags id xs = elim (Bool-cases (leb (length xs) max_device_transfer)) [
  | inl short ↦ rw short (append-nil xs)
  | inr long ↦ rw long (
      ap (λ t. take max_device_transfer xs ++ t)
        (payload-chunks n 0x70 id (drop max_device_transfer xs))
      ∙ take-append-drop max_device_transfer xs)
]

-- What is true of each datagram for an application: its length is within the largest transfer and
-- stands in the command.
abbrev pub IsData : ℕ → Datagram → Type 0
IsData id (command, bytes) =
    (length bytes ≤ max_device_transfer)
    × (command % 2 ^ 16 ≡ length bytes)
    × (command / 2 ^ 16 % 2 ^ 8 ≡ id)

piece :
    (flags id : ℕ) (xs : List ℕ)
    → id < 256
    → length xs ≤ max_device_transfer
    → IsData id (flags * 2 ^ 24 + (id * 2 ^ 16 + length xs), xs)
piece flags id xs hid h = (h, omega arith, omega arith)

pub chunks-IsData :
    (n flags id : ℕ) (xs : List ℕ)
    → id < 256
    → length xs ≤ n
    → All (IsData id) (datagrams flags id (chunks n xs))
unfolding chunks datagrams
chunks-IsData zero flags id xs hid h = (piece flags id xs hid (omega arith), tt)
chunks-IsData (suc n) flags id xs hid h = elim (Bool-cases (leb (length xs) max_device_transfer)) [
  | inl short ↦ rw short (piece flags id xs hid (ground (arith, short)), tt)
  | inr long ↦ rw long (
    piece flags id (take max_device_transfer xs) hid
        (omega (arith, length-take max_device_transfer xs)),
    chunks-IsData n 0x70 id (drop max_device_transfer xs) hid
        (ground (arith, long, length-drop max_device_transfer xs)),
  )
]

module _ {W : Type 0} (platform : Platform W) (ctx : TransportContext W) where
  -- Write datagrams one by one, up to the first that fails.
  unfoldable pub write_all : List Datagram → M W ℕ
  write_all [] w = (app_success, w)
  write_all ((command, bytes) ∷ ds) w =
      let (err, w') = nos_device_write platform ctx.dev command bytes w in
      let rest = write_all ds w' in if is_nonzero err then (app_error_io, w') else rest

  pub write_all-append :
      (xs ys : List Datagram) (w : W)
      → write_all (xs ++ ys) w ≡ (
          let (res, w') = write_all xs w in
          if res == app_success then write_all ys w' else (res, w'))
  unfolding write_all
  write_all-append [] ys w = refl
  write_all-append ((command, bytes) ∷ xs) ys w =
      let (err, w') = nos_device_write platform ctx.dev command bytes w in
      elim (Bool-cases (is_nonzero err)) [
        | inl bad ↦ rw bad
        | inr good ↦ rw good (write_all-append xs ys w')
      ]
