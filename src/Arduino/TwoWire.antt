-- ===== src/Arduino/TwoWire.antt =====
-- Arduino's Wire library, which src/arduino/wire_transport.cpp calls and the repository does not
-- hold: its methods as a parameter, with what its documentation says of the receive buffer and of
-- sending.
use picomesh.Base.{ℕ, zero, suc, ◌+◌, ◌≤◌, ◌≡◌, ap, List, [], ◌∷◌, ◌++◌, arith, false}
use picomesh.Base.{◌==◌, if◌then◌else◌, length, take, AllBytes}

pub record TwoWire : Type 1 where
  pub State : Type 0
  -- `begin(address)`, and the registration of the two callbacks.
  pub begin : State → ℕ → State
  pub on_receive : State → State
  pub on_request : State → State
  pub begin_transmission : State → ℕ → State
  -- `write(data, length)`
  pub write : State → List ℕ → State × ℕ
  pub end_transmission : State → State × ℕ
  pub request_from : State → ℕ → ℕ → State × ℕ
  pub available : State → ℕ
  pub read : State → State × ℕ

-- `available` counts the received bytes that have not been read, and `read` takes the first.
-- `requestFrom` returns how many bytes have arrived, which are no more than were asked for.
pub record IsLawful (W : TwoWire) : Type 0 where
  pub unread : W.State → List ℕ
  pub unread_bytes : (s : W.State) → AllBytes (unread s)
  pub available_count : (s : W.State) → W.available s ≡ length (unread s)
  pub read_first :
      (s : W.State) (b : ℕ) (bs : List ℕ)
      → unread s ≡ b ∷ bs
      → ((W.read s).1 ≡ b) × (unread (W.read s).0 ≡ bs)
  pub request_count :
      (s : W.State) (address quantity : ℕ)
      → (W.request_from s address quantity).1
        ≡ length (unread (W.request_from s address quantity).0)
  pub request_bound :
      (s : W.State) (address quantity : ℕ) → (W.request_from s address quantity).1 ≤ quantity

-- `write` queues the bytes it says it has taken, all of them while the queue stays within its 32;
-- `endTransmission` returns 0 exactly if the receiver has acknowledged all that was queued since
-- `beginTransmission`. `delivered` has these transmissions with their addresses, the last first.
-- A request callback queues its answer by `write` alone.
pub record Delivers (W : TwoWire) : Type 0 where
  pub target : W.State → ℕ
  pub queued : W.State → List ℕ
  pub delivered : W.State → List (ℕ × List ℕ)
  pub begin_lem :
      (s : W.State) (address : ℕ)
      → (target (W.begin_transmission s address) ≡ address)
        × (queued (W.begin_transmission s address) ≡ [])
        × (delivered (W.begin_transmission s address) ≡ delivered s)
  pub write_lem :
      (s : W.State) (bytes : List ℕ)
      → (target (W.write s bytes).0 ≡ target s)
        × (queued (W.write s bytes).0 ≡ queued s ++ take (W.write s bytes).1 bytes)
        × (delivered (W.write s bytes).0 ≡ delivered s)
  pub write_room :
      (s : W.State) (bytes : List ℕ)
      → length (queued s) + length bytes ≤ 32
      → (W.write s bytes).1 ≡ length bytes
  pub end_lem :
      (s : W.State)
      → delivered (W.end_transmission s).0 ≡ (
          if (W.end_transmission s).1 == 0 then (target s, queued s) ∷ delivered s else delivered s)

module _ (W : TwoWire) where
  -- `while (wire_->available()) { (void)wire_->read(); }`, with fuel.
  unfoldable pub drain : ℕ → W.State → W.State
  drain zero s = s
  drain (suc fuel) s = let rest = drain fuel (W.read s).0 in if W.available s == 0 then s else rest

  -- Run with the number of bytes that are available, the loop ends by its test.
  pub drain_lem :
      (laws : IsLawful W) (us : List ℕ) (s : W.State)
      → laws.unread s ≡ us
      → laws.unread (drain (length us) s) ≡ []
  unfolding drain
  drain_lem laws [] s e = e
  drain_lem laws (u ∷ us) s e =
      let more : (W.available s == 0) ≡ false =
        ground (arith, laws.available_count s, ap length e) in
      rw more (drain_lem laws us (W.read s).0 (laws.read_first s u us e).1)
