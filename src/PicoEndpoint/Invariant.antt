-- ===== src/PicoEndpoint/Invariant.antt =====
-- The invariant of the mailbox, which the application and every interrupt keep.
use picomesh.Base.{
  ℕ, zero, suc, ◌+◌, ◌-◌, ◌≤◌, ◌<◌, ◌≡◌, ◌≢◌, refl, inl, inr, ◌⊎◌, [], false, arith, bit_xor,
  Bool-cases,
}
use picomesh.Base.{get_or, set, length, get_or-set, length-set, u8, ltb}
use picomesh.PicoEndpoint.{
  I2cPeripheralEndpoint, receive_byte, transmit_byte, complete_receive_from_isr, abort, overrun,
}

-- The arrays keep their sizes, the lengths fit them, and the interrupt handler never writes the
-- buffer that is ready.
pub record IsValid (e : I2cPeripheralEndpoint) : Type 0 where
  pub rx_size : length e.rx_buffers ≡ 2
  pub rx_lengths_size : length e.rx_lengths ≡ 2
  pub tx_size : length e.tx_buffers ≡ 2
  pub tx_lengths_size : length e.tx_lengths ≡ 2
  pub rx_storage : (i : ℕ) → i < 2 → length (get_or e.rx_buffers i []) ≡ 40
  pub rx_bounds : (i : ℕ) → i < 2 → get_or e.rx_lengths i 0 ≤ 40
  pub tx_storage : (i : ℕ) → i < 2 → length (get_or e.tx_buffers i []) ≡ 40
  pub tx_bounds : (i : ℕ) → i < 2 → get_or e.tx_lengths i 0 ≤ 40
  pub write_index : e.rx_write_index < 2
  pub ready_index : e.rx_ready_index < 2
  pub active_index : e.tx_active_index < 2
  pub position : e.tx_index ≤ get_or e.tx_lengths e.tx_active_index 0
  pub apart : (e.rx_ready ≡ false) ⊎ (e.rx_ready_index ≢ e.rx_write_index)
  pub not_empty : (e.rx_ready ≡ false) ⊎ (1 ≤ get_or e.rx_lengths e.rx_ready_index 0)

-- Of two buffers, the other one.
pub other : (i : ℕ) → i < 2 → u8 (bit_xor i 1) ≡ 1 - i
other zero h = refl
other (suc zero) h = refl
other (suc (suc i)) h = absurd (omega arith)

module _ {e : I2cPeripheralEndpoint} (v : IsValid e) where
  pub receive_byte-IsValid : (d : ℕ) → IsValid (receive_byte e d)
  unfolding receive_byte
  receive_byte-IsValid d = record {
    rx_size =
        ground
          (arith, v.rx_size, length-set e.rx_buffers w (set (get_or e.rx_buffers w []) k (u8 d)));
    rx_lengths_size = ground (arith, v.rx_lengths_size, length-set e.rx_lengths w (u8 (k + 1)));
    tx_size = ground (arith, v.tx_size);
    tx_lengths_size = ground (arith, v.tx_lengths_size);
    rx_storage = λ i h. ground (
      arith,
      v.rx_storage i h,
      v.rx_storage w v.write_index,
      get_or-set e.rx_buffers w i (set (get_or e.rx_buffers w []) k (u8 d)) [] wb,
      length-set (get_or e.rx_buffers w []) k (u8 d),
    );
    rx_bounds = λ i h. ground (
      arith,
      v.rx_bounds i h,
      v.rx_bounds w v.write_index,
      get_or-set e.rx_lengths w i (u8 (k + 1)) 0 wl,
    );
    tx_storage = λ i h. ground (arith, v.tx_storage i h);
    tx_bounds = λ i h. ground (arith, v.tx_bounds i h);
    write_index = ground (arith, v.write_index);
    ready_index = ground (arith, v.ready_index);
    active_index = ground (arith, v.active_index);
    position = ground (arith, v.position);
    apart = ground (arith, v.apart);
    not_empty =
        ground (
          arith,
          v.not_empty,
          v.apart,
          get_or-set e.rx_lengths w e.rx_ready_index (u8 (k + 1)) 0 wl,
        );
  }
    where
      w : ℕ
      w = e.rx_write_index

      k : ℕ
      k = get_or e.rx_lengths w 0

      wb : w < length e.rx_buffers
      wb = omega (arith, v.rx_size, v.write_index)

      wl : w < length e.rx_lengths
      wl = omega (arith, v.rx_lengths_size, v.write_index)

  pub at_position :
      (t : ℕ) → t ≤ get_or e.tx_lengths e.tx_active_index 0 → IsValid (record e { tx_index = t })
  at_position t h = record {
    rx_size = v.rx_size;
    rx_lengths_size = v.rx_lengths_size;
    tx_size = v.tx_size;
    tx_lengths_size = v.tx_lengths_size;
    rx_storage = v.rx_storage;
    rx_bounds = v.rx_bounds;
    tx_storage = v.tx_storage;
    tx_bounds = v.tx_bounds;
    write_index = v.write_index;
    ready_index = v.ready_index;
    active_index = v.active_index;
    position = h;
    apart = v.apart;
    not_empty = v.not_empty;
  }

  pub transmit_byte-IsValid : IsValid (transmit_byte e).0
  unfolding transmit_byte
  transmit_byte-IsValid =
      elim (Bool-cases (ltb e.tx_index (get_or e.tx_lengths e.tx_active_index 0))) [
        | inl more ↦ rw more (
            at_position _ (
              ground (arith, v.tx_bounds e.tx_index, v.tx_bounds e.tx_active_index v.active_index)))
        | inr done ↦ rw done v
      ]

  pub complete_receive_from_isr-IsValid : IsValid (complete_receive_from_isr e)
  unfolding complete_receive_from_isr
  complete_receive_from_isr-IsValid = record {
    rx_size = ground (arith, v.rx_size);
    rx_lengths_size =
        ground (arith, v.rx_lengths_size, length-set e.rx_lengths w 0, length-set e.rx_lengths n 0);
    tx_size = ground (arith, v.tx_size);
    tx_lengths_size = ground (arith, v.tx_lengths_size);
    rx_storage = λ i h. ground (arith, v.rx_storage i h);
    rx_bounds = λ i h. ground (
      arith,
      v.rx_bounds i h,
      get_or-set e.rx_lengths w i 0 0 wl,
      get_or-set e.rx_lengths n i 0 0 nl,
    );
    tx_storage = λ i h. ground (arith, v.tx_storage i h);
    tx_bounds = λ i h. ground (arith, v.tx_bounds i h);
    write_index = ground (arith, v.write_index, nb);
    ready_index = ground (arith, v.ready_index, v.write_index);
    active_index = ground (arith, v.active_index);
    position = ground (arith, v.position);
    apart = ground (arith, v.apart, other w v.write_index);
    not_empty = ground (
      arith,
      v.not_empty,
      v.apart,
      other w v.write_index,
      get_or-set e.rx_lengths w e.rx_ready_index 0 0 wl,
      get_or-set e.rx_lengths n w 0 0 nl,
    );
  }
    where
      w : ℕ
      w = e.rx_write_index

      n : ℕ
      n = u8 (bit_xor w 1)

      nb : n < 2
      nb = omega (arith, other w v.write_index)

      wl : w < length e.rx_lengths
      wl = omega (arith, v.rx_lengths_size, v.write_index)

      nl : n < length e.rx_lengths
      nl = omega (arith, v.rx_lengths_size, nb)

  pub abort-IsValid : IsValid (abort e)
  unfolding abort
  abort-IsValid = at_position 0 (omega arith)

  pub overrun-IsValid : IsValid (overrun e)
  unfolding overrun
  overrun-IsValid = record {
    rx_size = v.rx_size;
    rx_lengths_size = v.rx_lengths_size;
    tx_size = v.tx_size;
    tx_lengths_size = v.tx_lengths_size;
    rx_storage = v.rx_storage;
    rx_bounds = v.rx_bounds;
    tx_storage = v.tx_storage;
    tx_bounds = v.tx_bounds;
    write_index = v.write_index;
    ready_index = v.ready_index;
    active_index = v.active_index;
    position = v.position;
    apart = v.apart;
    not_empty = v.not_empty;
  }
