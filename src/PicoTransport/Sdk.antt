-- ===== src/PicoTransport/Sdk.antt =====
-- The functions of the Pico SDK that ports/pico-sdk/picomesh_pico_transport.cpp calls and the
-- repository does not hold, as a parameter, with what their documentation says.
use picomesh.Base.{ℕ, ◌-◌, ◌^◌, ◌≤◌, ◌≡◌, List, Bool, false, length, if◌then◌else◌, ltb, ◌==◌}

-- A C `int`; `negsuc n` is -(n + 1).
pub data ℤ : Type 0 where
  pos : ℕ → ℤ
  negsuc : ℕ → ℤ

-- `static_cast<int>` of a 32-bit `size_t`.
unfoldable pub to_int : ℕ → ℤ
to_int n = if ltb n (2 ^ 31) then pos n else negsuc (2 ^ 32 - 1 - n)

-- `==` of two values of type `int`.
unfoldable pub int_eq : ℤ → ℤ → Bool
int_eq (pos a) (pos b) = a == b
int_eq (pos a) (negsuc b) = false
int_eq (negsuc a) (pos b) = false
int_eq (negsuc a) (negsuc b) = a == b

pub record PicoSdk : Type 1 where
  pub State : Type 0
  pub I2c : Type 0
  pub Uart : Type 0
  -- The two controllers, and `==` of pointers to controllers.
  pub i2c0 : I2c
  pub i2c1 : I2c
  pub same_i2c : I2c → I2c → Bool
  -- `i2c_set_slave_mode(instance, true, address)`, the handler and the enabling of the interrupt of
  -- controller 0 or 1, and the mask of the interrupts that a peripheral handles.
  pub i2c_set_slave_mode : State → I2c → ℕ → State
  pub irq_set_exclusive_handler : State → ℕ → State
  pub irq_set_enabled : State → ℕ → State
  pub set_intr_mask : State → I2c → State
  -- The result is the number of bytes written, or an error code below zero.
  pub i2c_write_blocking : State → I2c → ℕ → List ℕ → State × ℤ
  -- The result comes with the bytes that are stored at the beginning of the destination.
  pub i2c_read_blocking : State → I2c → ℕ → ℕ → State × List ℕ × ℤ
  pub uart_write_blocking : State → Uart → List ℕ → State
  pub uart_is_readable : State → Uart → Bool
  pub uart_getc : State → Uart → State × ℕ

-- `i2c_read_blocking` stores at most as many bytes as asked for, and returns their number unless
-- it fails.
pub record IsLawful (S : PicoSdk) : Type 0 where
  pub read_bound :
      (s : S.State) (i : S.I2c) (address quantity : ℕ)
      → length (S.i2c_read_blocking s i address quantity).1 ≤ quantity
  pub read_count :
      (s : S.State) (i : S.I2c) (address quantity n : ℕ)
      → (S.i2c_read_blocking s i address quantity).2 ≡ pos n
      → n ≡ length (S.i2c_read_blocking s i address quantity).1
