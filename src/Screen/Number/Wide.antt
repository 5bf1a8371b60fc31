-- ===== src/Screen/Number/Wide.antt =====
-- wstr_to_str of print.c: the low bytes of 16-bit characters as a string.
use usbloader.Common.{
  ℕ, zero, suc, ◌+◌, ◌-◌, ◌*◌, ◌/◌, ◌%◌, ◌≤◌, ◌<◌, ◌≡◌, refl, ap, ◌∙◌, ◌⊎◌, inl, inr, true, false,
  ltb, ◌==◌, if◌then◌else◌, arith, Bool-cases, eq_of_==,
}
use usbloader.Memory.{Bytes, store8, load16}
use usbloader.Screen.Number.{narrow, wstr_to_str}

-- `count` characters from `wstr` on do not overlap the bytes from `str` on.
abbrev pub Separate : (wstr str count : ℕ) → Type 0
Separate wstr str count = (str + count ≤ wstr) ⊎ (wstr + 2 * count ≤ str)

abbrev narrowed : (wstr str i : ℕ) → Bytes → Bytes
narrowed wstr str i m = store8 m (str + i) (load16 m (wstr + 2 * i))

narrowed-here :
    (wstr str i : ℕ) (m : Bytes) → narrowed wstr str i m (str + i) ≡ m (wstr + 2 * i) % 256
unfolding store8 load16
narrowed-here wstr str i m =
    let same : (str + i == str + i) ≡ true = ground arith in rw same (omega arith)

store8-other : (m : Bytes) (a v x : ℕ) → (x == a) ≡ false → store8 m a v x ≡ m x
unfolding store8
store8-other m a v x other = rw other refl

store8-zero : (m : Bytes) (a : ℕ) → store8 m a 0 a ≡ 0
unfolding store8
store8-zero m a = ground arith

record Narrowed (wstr str i left : ℕ) (m n : Bytes) : Type 0 where
  chars : (j : ℕ) → j < left → n (str + (i + j)) ≡ m (wstr + 2 * (i + j)) % 256
  outside : (x : ℕ) → (x < str + i) ⊎ (str + i + left ≤ x) → n x ≡ m x

narrow-Narrowed :
    (left wstr str i count : ℕ) (m : Bytes)
    → i + left ≤ count
    → Separate wstr str count
    → Narrowed wstr str i left m (narrow left wstr str i m)
unfolding narrow
narrow-Narrowed zero wstr str i count m le apart = record {
  chars = λ j lt. absurd (omega arith);
  outside = λ x out. refl;
}
narrow-Narrowed (suc left) wstr str i count m le apart =
    let m_1 : Bytes = narrowed wstr str i m in
    let ih = narrow-Narrowed left wstr str (i + 1) count m_1 (omega arith) apart in
    record {
      chars = λ j lt. elim (Bool-cases (j == 0)) [
        | inl e ↦
            let here : i + 0 ≡ i = omega arith in
            rw (eq_of_== j 0 e, here)
              (ih.outside (str + i) (inl (omega arith)) ∙ narrowed-here wstr str i m)
        | inr more ↦
            let place : i + 1 + (j - 1) ≡ i + j = ground arith in
            let source =
              store8-other m (str + i) (load16 m (wstr + 2 * i)) (wstr + 2 * (i + j))
                (ground arith) in
            rw place at (ih.chars (j - 1) (ground arith)) ∙ ap (λ c. c % 256) source
      ];
      outside = λ x out.
          ih.outside x (ground arith)
          ∙ store8-other m (str + i) (load16 m (wstr + 2 * i)) x (ground arith);
    }

-- For wide characters that do not overlap the bytes of the string, with l the least of len and half
-- of wlen, wstr_to_str writes the low bytes of the first l characters in order, then a NUL at the
-- byte l, which is behind the len bytes of the string when l is len, and nothing else.
pub wstr_to_str-chars :
    (wstr wlen str len l : ℕ) (m : Bytes)
    → (l ≡ len × len ≤ wlen / 2) ⊎ (l ≡ wlen / 2 × wlen / 2 ≤ len)
    → Separate wstr str l
    → ((j : ℕ) → j < l → wstr_to_str wstr wlen str len m (str + j) ≡ m (wstr + 2 * j) % 256)
      × (wstr_to_str wstr wlen str len m (str + l) ≡ 0)
      × ((x : ℕ) → (x < str) ⊎ (str + l < x) → wstr_to_str wstr wlen str len m x ≡ m x)
unfolding wstr_to_str
wstr_to_str-chars wstr wlen str len l m least apart =
    let chosen : (if ltb len (wlen / 2) then len else wlen / 2) ≡ l = ground arith in
    let d = narrow-Narrowed l wstr str 0 l m (omega arith) apart in
    let n : Bytes = narrow l wstr str 0 m in
    rw chosen (
      (λ j lt.
          let place : 0 + j ≡ j = omega arith in
          store8-other n (str + l) 0 (str + j) (ground arith) ∙ rw place at (d.chars j lt)),
      store8-zero n (str + l),
      (λ x out.
          store8-other n (str + l) 0 x (ground arith)
          ∙ (let start : str + 0 + l ≡ str + l = omega arith in d.outside x (ground arith))),
    )
