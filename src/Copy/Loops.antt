-- ===== src/Copy/Loops.antt =====
-- What memcopy and memfill of mem.c leave in each byte.
use usbloader.Common.{
  ℕ, zero, suc, ◌+◌, ◌-◌, ◌%◌, ◌^◌, ◌≤◌, ◌<◌, ◌≡◌, refl, ◌⊎◌, ◌∙◌, arith, ltb, leb, ◌==◌,
  Bool-cases, eq_of_==, ==_of_eq, inl, inr, true, false, ◌&&◌, if◌then◌else◌, some,
}
use usbloader.Common.Words.{add32-eq}
use usbloader.Memory.{Bytes, store8}
use usbloader.Copy.{copy_up, memcopy, fill_up, memfill}

-- The bytes from `src` on, copied to `dst`.
abbrev pub copied : (size dst src : ℕ) → Bytes → Bytes
copied size dst src m x = if leb dst x && ltb x (dst + size) then m (src + (x - dst)) % 256 else m x

-- A copy upwards reads no byte that it has overwritten.
abbrev pub Readable : (size dst src : ℕ) → Type 0
Readable size dst src = (dst ≤ src) ⊎ (src + size ≤ dst)

pub Readable-step :
    (size dst src : ℕ) → Readable (suc size) dst src → Readable size (dst + 1) (src + 1)
Readable-step size dst src (inl le) = inl (omega arith)
Readable-step size dst src (inr le) = inr (omega arith)

pub copied-step :
    (size dst src : ℕ) (m : Bytes) (x : ℕ)
    → Readable (suc size) dst src
    → copied size (dst + 1) (src + 1) (store8 m dst (m src)) x ≡ copied (suc size) dst src m x
unfolding store8
copied-step size dst src m x ok = elim (Bool-cases (x == dst)) [
  | inl e ↦
      let here : x ≡ dst = eq_of_== x dst e in
      let first : src + (dst - dst) ≡ src = omega arith in
      rw (here, first) (let self = ==_of_eq dst dst refl in ground arith)
  | inr ne ↦ elim (Bool-cases (leb (dst + 1) x)) [
    | inl above ↦
        let index : src + 1 + (x - (dst + 1)) ≡ src + (x - dst) = ground arith in
        rw index (ground arith)
    | inr below ↦ ground arith
  ]
]

copy_up-copied :
    (fuel size dst src : ℕ) (m : Bytes)
    → Readable size dst src
    → dst + size < 2 ^ 32
    → src + size < 2 ^ 32
    → size < fuel
    → (m' : Bytes) × (copy_up fuel dst src (dst + size) m ≡ some m')
      × ((x : ℕ) → m' x ≡ copied size dst src m x)
unfolding copy_up
copy_up-copied zero size dst src m ok fits in_src enough = absurd (omega arith)
copy_up-copied (suc fuel) zero dst src m ok fits in_src enough =
    let stop : ltb dst (dst + 0) ≡ false = ground arith in (m, rw stop refl, λ x. ground arith)
copy_up-copied (suc fuel) (suc size) dst src m ok fits in_src enough =
    let (m', e, bytes) =
      copy_up-copied fuel size (dst + 1) (src + 1) (store8 m dst (m src))
        (Readable-step size dst src ok) (omega arith) (omega arith) (omega arith) in
    let more : ltb dst (dst + suc size) ≡ true = ground arith in
    let end : dst + 1 + size ≡ dst + suc size = omega arith in
    (
      m',
      rw (more, add32-eq dst 1 (omega arith), add32-eq src 1 (omega arith)) (rw end at e),
      λ x. bytes x ∙ copied-step size dst src m x ok,
    )

-- When dst is not above src or the regions are apart, both end below 2^32 and the fuel is above
-- size, memcopy returns dst and memory that holds at dst the size bytes that were at src and is
-- unchanged elsewhere.
pub memcopy-copied :
    (fuel dst src size : ℕ) (m : Bytes)
    → Readable size dst src
    → dst + size < 2 ^ 32
    → src + size < 2 ^ 32
    → size < fuel
    → (m' : Bytes) × (memcopy fuel dst src size m ≡ some (dst, m'))
      × ((x : ℕ) → m' x ≡ copied size dst src m x)
unfolding memcopy
memcopy-copied fuel dst src size m ok fits in_src enough =
    let (m', e, bytes) = copy_up-copied fuel size dst src m ok fits in_src enough in
    (m', rw (memcopy, add32-eq dst size fits, e) refl, bytes)

-- The byte `byte` from `buf` on.
abbrev pub filled : (size buf byte : ℕ) → Bytes → Bytes
filled size buf byte m x = if leb buf x && ltb x (buf + size) then byte % 256 else m x

filled-step :
    (size buf byte : ℕ) (m : Bytes) (x : ℕ)
    → filled size (buf + 1) byte (store8 m buf byte) x ≡ filled (suc size) buf byte m x
unfolding store8
filled-step size buf byte m x = ground arith

fill_up-filled :
    (fuel size buf byte : ℕ) (m : Bytes)
    → buf + size < 2 ^ 32
    → size < fuel
    → (m' : Bytes) × (fill_up fuel buf byte (buf + size) m ≡ some m')
      × ((x : ℕ) → m' x ≡ filled size buf byte m x)
unfolding fill_up
fill_up-filled zero size buf byte m fits enough = absurd (omega arith)
fill_up-filled (suc fuel) zero buf byte m fits enough =
    let stop : ltb buf (buf + 0) ≡ false = ground arith in (m, rw stop refl, λ x. ground arith)
fill_up-filled (suc fuel) (suc size) buf byte m fits enough =
    let (m', e, bytes) =
      fill_up-filled fuel size (buf + 1) byte (store8 m buf byte) (omega arith) (omega arith) in
    let more : ltb buf (buf + suc size) ≡ true = ground arith in
    let end : buf + 1 + size ≡ buf + suc size = omega arith in
    (
      m',
      rw (more, add32-eq buf 1 (omega arith)) (rw end at e),
      λ x. bytes x ∙ filled-step size buf byte m x,
    )

-- When the region ends below 2^32 and the fuel is above size, memfill returns buf and memory that
-- holds the byte in the size places from buf on and is unchanged elsewhere.
pub memfill-filled :
    (fuel buf byte size : ℕ) (m : Bytes)
    → buf + size < 2 ^ 32
    → size < fuel
    → (m' : Bytes) × (memfill fuel buf byte size m ≡ some (buf, m'))
      × ((x : ℕ) → m' x ≡ filled size buf byte m x)
unfolding memfill
memfill-filled fuel buf byte size m fits enough =
    let (m', e, bytes) = fill_up-filled fuel size buf byte m fits enough in
    (m', rw (memfill, add32-eq buf size fits, e) refl, bytes)
