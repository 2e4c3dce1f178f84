-- ===== src/PicoEndpoint/Buffers.antt =====
-- The invariant under the parts of `publish` and `poll` that work on the buffers.
use picomesh.Base.{ℕ, ◌-◌, ◌≤◌, ◌<◌, ◌≡◌, refl, ◌∙◌, inl, inr, List, [], arith, Bool-cases}
use picomesh.Base.{get_or, length, get_or-set, length-set, copy_n, length-copy_n, u8, ◌==◌}
use picomesh.Frame.{EncodedFrame}
use picomesh.PicoEndpoint.{I2cPeripheralEndpoint, fill_inactive, switch_active, take_ready}
use picomesh.PicoEndpoint.Invariant.{IsValid}

module _ {e : I2cPeripheralEndpoint} (v : IsValid e) where
  pub fill_inactive-IsValid :
      (encoded : EncodedFrame)
      → length encoded.bytes ≡ 40
      → encoded.active ≤ 40
      → IsValid (fill_inactive e (1 - e.tx_active_index) encoded)
  unfolding fill_inactive
  fill_inactive-IsValid encoded full fits = record {
    rx_size = v.rx_size;
    rx_lengths_size = v.rx_lengths_size;
    tx_size = length-set _ _ _ ∙ v.tx_size;
    tx_lengths_size = v.tx_lengths_size;
    rx_storage = v.rx_storage;
    rx_bounds = v.rx_bounds;
    tx_storage = λ i h. ground (
      arith,
      v.tx_storage i h,
      v.tx_storage (1 - e.tx_active_index) (omega arith),
      get_or-set e.tx_buffers (1 - e.tx_active_index) i written [] inside,
      length-copied,
    );
    tx_bounds = v.tx_bounds;
    write_index = v.write_index;
    ready_index = v.ready_index;
    active_index = v.active_index;
    position = v.position;
    apart = v.apart;
    not_empty = v.not_empty;
  }
    where
      target : List ℕ
      target = get_or e.tx_buffers (1 - e.tx_active_index) []

      written : List ℕ
      written = copy_n encoded.active encoded.bytes 0 target 0

      inside : 1 - e.tx_active_index < length e.tx_buffers
      inside = omega (arith, v.tx_size)

      length-copied : length written ≡ 40
      length-copied =
          length-copy_n encoded.active encoded.bytes 0 target 0
          ∙ v.tx_storage (1 - e.tx_active_index) (omega arith)

  pub switch_active-IsValid :
      (encoded : EncodedFrame)
      → encoded.active ≤ 40
      → IsValid (switch_active e (1 - e.tx_active_index) encoded).0
  unfolding switch_active
  switch_active-IsValid encoded fits = elim (Bool-cases (e.tx_index == 0)) [
    | inl start ↦ rw start (record {
      rx_size = v.rx_size;
      rx_lengths_size = v.rx_lengths_size;
      tx_size = v.tx_size;
      tx_lengths_size = length-set _ _ _ ∙ v.tx_lengths_size;
      rx_storage = v.rx_storage;
      rx_bounds = v.rx_bounds;
      tx_storage = v.tx_storage;
      tx_bounds = λ i h. ground (
        arith,
        v.tx_bounds i h,
        get_or-set e.tx_lengths (1 - e.tx_active_index) i (u8 encoded.active) 0 inside,
      );
      write_index = v.write_index;
      ready_index = v.ready_index;
      active_index = omega arith;
      position = ground (arith, start);
      apart = v.apart;
      not_empty = v.not_empty;
    })
    | inr reading ↦ rw reading v
  ]
    where
      inside : 1 - e.tx_active_index < length e.tx_lengths
      inside = omega (arith, v.tx_lengths_size)

  pub take_ready-IsValid : IsValid (take_ready e).0
  unfolding take_ready
  take_ready-IsValid = record {
    rx_size = v.rx_size;
    rx_lengths_size = length-set _ _ _ ∙ v.rx_lengths_size;
    tx_size = v.tx_size;
    tx_lengths_size = v.tx_lengths_size;
    rx_storage = v.rx_storage;
    rx_bounds = λ i h.
        ground (arith, v.rx_bounds i h, get_or-set e.rx_lengths e.rx_ready_index i 0 0 inside);
    tx_storage = v.tx_storage;
    tx_bounds = v.tx_bounds;
    write_index = v.write_index;
    ready_index = v.ready_index;
    active_index = v.active_index;
    position = v.position;
    apart = inl refl;
    not_empty = inl refl;
  }
    where
      inside : e.rx_ready_index < length e.rx_lengths
      inside = omega (arith, v.rx_lengths_size, v.ready_index)
