-- ===== src/Copy/Strings.antt =====
-- What scopy of mem.c leaves in each byte.
use usbloader.Common.{
  ℕ, zero, suc, ◌+◌, ◌-◌, ◌^◌, ◌<◌, ◌≡◌, refl, ◌∙◌, ap, arith, ◌==◌, Bool-cases, eq_of_==, ==_of_lt,
  ==_of_gt, inl, inr, false, some,
}
use usbloader.Common.Words.{add32-eq}
use usbloader.Memory.{Bytes, store8}
use usbloader.Copy.{copy_chars, scopy}
use usbloader.Copy.Loops.{Readable, copied, copied-step, Readable-step}

-- A string of `len` characters at `src`, with its NUL.
pub record IsString (m : Bytes) (src len : ℕ) : Type 0 where
  pub chars : (j : ℕ) → j < len → (m (src + j) == 0) ≡ false
  pub end : m (src + len) ≡ 0

Readable-shorter : (size dst src : ℕ) → Readable (suc size) dst src → Readable size dst src
Readable-shorter size dst src (inl le) = inl le
Readable-shorter size dst src (inr le) = inr (omega arith)

store8-ahead :
    (m : Bytes) (dst src n j v : ℕ)
    → Readable (suc n) dst src
    → j < n
    → store8 m dst v (src + 1 + j) ≡ m (src + (j + 1))
unfolding store8
store8-ahead m dst src n j v (inl le) lt =
    let apart = ==_of_gt (src + 1 + j) dst (omega arith) in rw apart (ap m (omega arith))
store8-ahead m dst src n j v (inr le) lt =
    let apart = ==_of_lt (src + 1 + j) dst (omega arith) in rw apart (ap m (omega arith))

IsString-store8 :
    (m : Bytes) (dst src len v : ℕ)
    → Readable (suc (suc len)) dst src
    → IsString m src (suc len)
    → IsString (store8 m dst v) (src + 1) len
IsString-store8 m dst src len v ok s = record {
  chars = λ j lt.
      rw (store8-ahead m dst src (suc len) j v ok (omega arith)) (s.chars (j + 1) (omega arith));
  end =
      (let next : len + 1 ≡ suc len = omega arith in
        rw (store8-ahead m dst src (suc len) len v ok (omega arith), next) s.end);
}

module _ (dst src : ℕ) where
  copy_chars-copied :
      (fuel i len : ℕ) (m : Bytes)
      → Readable (suc len) (dst + i) (src + i)
      → IsString m (src + i) len
      → dst + i + len < 2 ^ 32
      → src + i + len < 2 ^ 32
      → len < fuel
      → (m' : Bytes) × (copy_chars fuel i dst src m ≡ some (i + len, m'))
        × ((x : ℕ) → m' x ≡ copied len (dst + i) (src + i) m x)
  unfolding copy_chars
  copy_chars-copied zero i len m ok s fits in_src enough = absurd (omega arith)
  copy_chars-copied (suc fuel) i zero m ok s fits in_src enough =
      let here : src + i + 0 ≡ src + i = omega arith in
      let stop : m (src + i) ≡ 0 = rw here at s.end in
      let last : i + 0 ≡ i = omega arith in
      (m, rw (copy_chars, add32-eq src i (omega arith), stop, last) refl, λ x. ground arith)
  copy_chars-copied (suc fuel) i (suc len) m ok s fits in_src enough =
      let here : src + i + 0 ≡ src + i = omega arith in
      let more : (m (src + i) == 0) ≡ false = rw here at (s.chars 0 (omega arith)) in
      let m₁ = store8 m (dst + i) (m (src + i)) in
      let dst_eq : dst + i + 1 ≡ dst + (i + 1) = omega arith in
      let src_eq : src + i + 1 ≡ src + (i + 1) = omega arith in
      let ok' : Readable (suc len) (dst + (i + 1)) (src + (i + 1)) =
        rw (dst_eq, src_eq) at (Readable-step (suc len) (dst + i) (src + i) ok) in
      let s' : IsString m₁ (src + (i + 1)) len =
        rw src_eq at (IsString-store8 m (dst + i) (src + i) len (m (src + i)) ok s) in
      let (m', e, bytes) =
        copy_chars-copied fuel (i + 1) len m₁ ok' s' (omega arith) (omega arith) (omega arith) in
      let last : i + 1 + len ≡ i + suc len = omega arith in
      let step = λ (x : ℕ).
        copied-step len (dst + i) (src + i) m x
          (Readable-shorter (suc len) (dst + i) (src + i) ok) in
      (
        m',
        rw
            (
              copy_chars,
              add32-eq src i (omega arith),
              add32-eq dst i (omega arith),
              add32-eq i 1 (omega arith),
              more,
            )
            (rw last at e),
        λ x. bytes x ∙ (rw (dst_eq, src_eq) at (step x)),
      )

-- The NUL behind the copied characters.
copied-end :
    (m m' : Bytes) (dst src len x : ℕ)
    → m (src + len) ≡ 0
    → m' x ≡ copied len dst src m x
    → store8 m' (dst + len) 0 x ≡ copied (suc len) dst src m x
unfolding store8
copied-end m m' dst src len x nul same = elim (Bool-cases (x == dst + len)) [
  | inl e ↦
      let here : x ≡ dst + len = eq_of_== x (dst + len) e in
      let index : src + (x - dst) ≡ src + len = omega arith in rw (index, nul) (ground arith)
  | inr ne ↦ ground arith
]

-- For a string of len characters at src, when dst is not above src or lies behind the string, both
-- regions end below 2^32 and the fuel is above len, scopy returns dst and memory that holds the
-- string with its NUL at dst and is unchanged elsewhere.
pub scopy-copied :
    (fuel dst src len : ℕ) (m : Bytes)
    → Readable (suc len) dst src
    → IsString m src len
    → dst + len < 2 ^ 32
    → src + len < 2 ^ 32
    → len < fuel
    → (m' : Bytes) × (scopy fuel dst src m ≡ some (dst, m'))
      × ((x : ℕ) → m' x ≡ copied (suc len) dst src m x)
unfolding scopy
scopy-copied fuel dst src len m ok s fits in_src enough =
    let d0 : dst + 0 ≡ dst = omega arith in
    let s0 : src + 0 ≡ src = omega arith in
    let ok0 : Readable (suc len) (dst + 0) (src + 0) = rw (d0, s0) ok in
    let string0 : IsString m (src + 0) len = rw s0 s in
    let (m', e, bytes) =
      copy_chars-copied dst src fuel 0 len m ok0 string0 (omega arith) (omega arith) enough in
    let last : 0 + len ≡ len = omega arith in
    (
      store8 m' (dst + len) 0,
      rw (scopy, e, last, add32-eq dst len fits) refl,
      λ x.
          let start : copied len (dst + 0) (src + 0) m x ≡ copied len dst src m x =
            rw (d0, s0) refl in
          copied-end m m' dst src len x s.end (bytes x ∙ start),
    )
