-- ===== src/Uhci/Control/Chain.antt =====
-- The descriptors of a control transfer of uhci.c as one array, and the chain of their links.
use usbloader.Common.{
  ℕ, ◌+◌, ◌-◌, ◌*◌, ◌%◌, ◌^◌, ◌≤◌, ◌<◌, ◌≡◌, refl, ◌∙◌, ◌⊎◌, inl, inr, true, false, arith, ◌==◌,
  Bool-cases, if◌then◌else◌, eq_of_==, bit_or,
}
use usbloader.Memory.{Bytes, Agree, Agree-trans}
use usbloader.Uhci.{Td, UsbDevice, element, write_td, read_td, td_lptr_ptr, td_lptr_depth}
use usbloader.Uhci.Control.{setup_td, status_td, write_data, write_control, packet_size}
use usbloader.Uhci.Control.Tokens.{
  setup_td-token, status_td-token, link_eq, ctrl_of-lt, token_of-lt, data_td-parts, status_ctrl-lt,
  follow_link, setup_td-link,
}
use usbloader.Uhci.Control.Layout.{
  toggle_at, buf_at, IsWords, read_td-write_td, read_td-Agree, write_td-Agree, element-eq, data_at,
  loop-Agree, loop-read,
}

module _ (td : ℕ) (dev : UsbDevice) (cnt dr stage final buf : ℕ) where
  -- The descriptor `j` of a control transfer.
  abbrev pub control_td : ℕ → Td
  control_td j =
      if j == 0
      then setup_td td dev dr
      else if j + 1 == cnt
      then status_td dev final cnt
      else data_at td dev (packet_size dev) stage buf (j - 1)

  module _ (aligned : td % 16 ≡ 0) (fits : td + 32 * cnt < 2 ^ 32) (some_td : 2 ≤ cnt)
      (kind : stage < 256) (kind' : final < 256) (word : dr < 2 ^ 32)
      (buf_word : buf < 2 ^ 32) where
    setup_td-IsWords : IsWords (setup_td td dev dr)
    unfolding setup_td
    setup_td-IsWords =
        let link : bit_or (td_lptr_ptr (element td 1)) td_lptr_depth ≡ td + 32 * 1 + 4 =
          rw (element-eq td 1 (omega arith)) (link_eq (td + 32 * 1) (omega arith) (omega arith)) in
        record {
          link_ptr = rw link (omega arith);
          ctrl_status = ctrl_of-lt dev;
          token =
              rw (setup_td-token td dev dr)
                (token_of-lt 7 false (dev.addr % 128) 45 (omega arith) (omega arith) (omega arith));
          buffer_ptr = word;
          swdata = omega arith;
        }

    status_td-IsWords : IsWords (status_td dev final cnt)
    unfolding status_td
    status_td-IsWords = record {
      link_ptr = omega arith;
      ctrl_status = status_ctrl-lt dev;
      token =
          rw (status_td-token dev final cnt kind')
            (token_of-lt 63 true (dev.addr % 128) final (omega arith) (omega arith) kind');
      buffer_ptr = omega arith;
      swdata = omega arith;
    }

    abbrev size : ℕ
    size = packet_size dev

    abbrev written_1 : Bytes → Bytes
    written_1 m = write_td (td + 32 * 0) (setup_td td dev dr) m

    abbrev written_2 : Bytes → Bytes
    written_2 m =
        write_data (cnt - 2) td dev size stage (toggle_at 0) (buf_at buf size 0) 0 (written_1 m)

    abbrev written_3 : Bytes → Bytes
    written_3 m = write_td (td + 32 * (cnt - 1)) (status_td dev final cnt) (written_2 m)

    write_control-eq : (m : Bytes) → write_control td dev cnt dr stage final buf m ≡ written_3 m
    unfolding write_control
    write_control-eq m =
        let buf_eq : (buf + 0 * size) % 2 ^ 32 ≡ buf = omega arith in
        rw
          (
            write_control,
            element-eq td 0 (omega arith),
            element-eq td (cnt - 1) (omega arith),
            buf_eq,
          )
          refl

    loop_written :
        (lo hi : ℕ) (m : Bytes)
        → (td + 32 * (cnt - 1) ≤ lo) ⊎ (hi ≤ td + 32)
        → Agree lo hi (written_1 m) (written_2 m)
    loop_written lo hi m apart =
        loop-Agree td dev size stage buf (cnt - 2) 0 lo hi (written_1 m) (omega arith)
          (ground arith)

    read_first : (m : Bytes) → read_td (td + 32 * 0) (written_3 m) ≡ setup_td td dev dr
    read_first m =
        let p = td + 32 * 0 in
        let loop = loop_written p (p + 20) m (inr (omega arith)) in
        let last =
          write_td-Agree p (p + 20) (td + 32 * (cnt - 1)) (status_td dev final cnt) (written_2 m)
            (inr (omega arith)) in
        read_td-Agree p (written_1 m) (written_3 m) (Agree-trans loop last)
        ∙ read_td-write_td p (setup_td td dev dr) m setup_td-IsWords

    read_data :
        (i : ℕ) (m : Bytes)
        → i < cnt - 2
        → read_td (td + 32 * (0 + 1 + i)) (written_3 m) ≡ data_at td dev size stage buf (0 + i)
    read_data i m lt =
        let p = td + 32 * (0 + 1 + i) in
        let last =
          write_td-Agree p (p + 20) (td + 32 * (cnt - 1)) (status_td dev final cnt) (written_2 m)
            (inr (omega arith)) in
        read_td-Agree p (written_2 m) (written_3 m) last
        ∙ loop-read td dev size stage buf (cnt - 2) 0 i (written_1 m) (omega arith) aligned kind lt

    pub write_control-read :
        (j : ℕ) (m : Bytes)
        → j < cnt
        → read_td (td + 32 * j) (write_control td dev cnt dr stage final buf m) ≡ control_td j
    write_control-read j m lt = elim (Bool-cases (j == 0)) [
      | inl e ↦
          let first : j ≡ 0 = eq_of_== j 0 e in rw first (rw (write_control-eq m) (read_first m))
      | inr later ↦ elim (Bool-cases (j + 1 == cnt)) [
        | inl e ↦
            let at_end : j ≡ cnt - 1 = ground arith in
            rw (write_control-eq m, later, e)
              (rw at_end (
                read_td-write_td (td + 32 * (cnt - 1)) (status_td dev final cnt) (written_2 m)
                  status_td-IsWords))
        | inr inner ↦
            let place : 0 + 1 + (j - 1) ≡ j = ground arith in
            let index : 0 + (j - 1) ≡ j - 1 = omega arith in
            rw (write_control-eq m, later, inner)
              (rw (place, index) at (read_data (j - 1) m (ground arith)))
      ]
    ]

    -- The link of each descriptor but the last leads to the next one.
    pub control_td-link :
        (j : ℕ) → j + 1 < cnt → td_lptr_ptr (control_td j).link_ptr ≡ td + 32 * (j + 1)
    control_td-link j lt =
        let p = td + 32 * (j + 1) in
        let goal = follow_link p (omega arith) (omega arith) in
        let here = element-eq td (j + 1) (omega arith) in
        elim (Bool-cases (j == 0)) [
          | inl e ↦
              let first : j ≡ 0 = eq_of_== j 0 e in
              rw first (
                rw (setup_td-link td dev dr, element-eq td 1 (omega arith))
                  (follow_link (td + 32 * 1) (omega arith) (omega arith)))
          | inr later ↦
              let inner : (j + 1 == cnt) ≡ false = ground arith in
              let index : j - 1 + 2 ≡ j + 1 = ground arith in
              let parts =
                data_td-parts td dev size stage (toggle_at (j - 1)) (buf_at buf size (j - 1))
                  (j - 1) in
              rw (later, inner, parts.0, index, here) goal
        ]

    -- Nothing is written outside the descriptors.
    pub write_control-Agree :
        (lo hi : ℕ) (m : Bytes)
        → (td + 32 * cnt ≤ lo) ⊎ (hi ≤ td)
        → Agree lo hi m (write_control td dev cnt dr stage final buf m)
    write_control-Agree lo hi m apart =
        let first = write_td-Agree lo hi (td + 32 * 0) (setup_td td dev dr) m (ground arith) in
        let loop = loop_written lo hi m (ground arith) in
        let last =
          write_td-Agree lo hi (td + 32 * (cnt - 1)) (status_td dev final cnt) (written_2 m)
            (ground arith) in
        rw (write_control-eq m) (Agree-trans first (Agree-trans loop last))
